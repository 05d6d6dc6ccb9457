-- ===== src/Tables/Tests.antt =====
-- What the theorems on the tables of the drivers say of some of them.
use fboss_bsp_kmods.Base.{◌≡◌, arith, refl, true, none, some}
use fboss_bsp_kmods.Print.{codes, print_hex}
use fboss_bsp_kmods.Kernel.{ok, found, update}
use fboss_bsp_kmods.Kernel.Memory.{Memory, memory, content, memory-IsRegisterFile, all_hold}
use fboss_bsp_kmods.Field.{read_field, clip_field, place_mask, place_field, merge, mask_u32}
use fboss_bsp_kmods.Field.{render_field}
use fboss_bsp_kmods.Regbit.{Config, render, regbit_sysfs_show, regbit_sysfs_store}
use fboss_bsp_kmods.Regbit.Setup.{World, Answers, regbit_sysfs_init_i2c}
use fboss_bsp_kmods.Regbit.Setup.Lifetime.{created}
use fboss_bsp_kmods.Tables.{rw_field}
use fboss_bsp_kmods.Tables.IcecubeMcbcpld
use fboss_bsp_kmods.Tables.Created.{i2c_tables_created}
use fboss_bsp_kmods.Tables.Apart.{i2c_tables_apart}

abbrev zeros : Memory
zeros = all_hold 0

abbrev oob_eeprom_wp : Config
oob_eeprom_wp = rw_field (codes "oob_eeprom_wp") 6 2 1

abbrev oob_eeprom_sel : Config
oob_eeprom_sel = rw_field (codes "oob_eeprom_sel") 6 3 1

wp_set :
    regbit_sysfs_store (found (memory 8)) oob_eeprom_wp (some 1) 2 zeros
    ≡ (ok 2, update zeros 6 0b100)
unfolding regbit_sysfs_store clip_field place_mask place_field merge mask_u32
wp_set = refl

sel_clear : regbit_sysfs_show (found (memory 8)) oob_eeprom_sel zeros ≡ (ok (codes "0x0\n"), zeros)
unfolding regbit_sysfs_show read_field mask_u32 render render_field print_hex
sel_clear = refl

sel_still_clear :
    regbit_sysfs_show (found (memory 8)) oob_eeprom_sel (update zeros 6 0b100)
    ≡ (ok (codes "0x0\n"), update zeros 6 0b100)
unfolding regbit_sysfs_show read_field mask_u32 render render_field print_hex
sel_still_clear = refl

i2c_tables_apart_example : codes "0x0\n" ≡ codes "0x0\n"
i2c_tables_apart_example =
    i2c_tables_apart (memory 8) (content 8) (memory-IsRegisterFile 8) 9 6 7
      IcecubeMcbcpld.sysfs_files oob_eeprom_wp oob_eeprom_sel 1 2 2 zeros (update zeros 6 0b100)
      zeros (update zeros 6 0b100) (codes "0x0\n") (codes "0x0\n") refl refl refl (omega arith) refl
      refl sel_clear wp_set sel_still_clear

abbrev no_files : World
no_files = record {
  handles = 0;
  attr_arrays = 0;
  entry_arrays = 0;
  locks = 0;
  group = none;
  action = none;
}

abbrev all_granted : Answers
all_granted = record {
  got_handle = true;
  got_attrs = true;
  got_entries = true;
  create_group = none;
  add_action = none;
}

i2c_tables_created_example :
    regbit_sysfs_init_i2c none all_granted IcecubeMcbcpld.sysfs_files no_files
    ≡ (ok tt, created IcecubeMcbcpld.sysfs_files no_files)
i2c_tables_created_example =
    i2c_tables_created 9 IcecubeMcbcpld.sysfs_files all_granted no_files refl refl
