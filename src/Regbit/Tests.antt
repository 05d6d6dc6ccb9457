-- ===== src/Regbit/Tests.antt =====
-- Concrete runs of the register fields of kmods/lib/regbit-sysfs.c, and the theorems at them.
use fboss_bsp_kmods.Base.{ℕ, ◌-◌, ◌≡◌, ◌≢◌, ◌↔◌, arith, refl, true, some, none, List, []}
use fboss_bsp_kmods.Base.{◌∷◌, if◌then◌else◌, leb, ltb, ◌&&◌}
use fboss_bsp_kmods.Bits.{bit}
use fboss_bsp_kmods.Print.{codes, print_dec, print_hex}
use fboss_bsp_kmods.Kernel.{ok, err, found, update}
use fboss_bsp_kmods.Kernel.Memory.{Memory, memory, content, memory-IsRegisterFile, all_hold}
use fboss_bsp_kmods.Field.{Fits, read_field, clip_field, place_mask, place_field, merge, mask_u32}
use fboss_bsp_kmods.Field.{render_field}
use fboss_bsp_kmods.Regbit.{Config, render, regbit_sysfs_show, regbit_sysfs_store, cpld_fw_ver_show}
use fboss_bsp_kmods.Regbit.Access.{regbit_sysfs_store_bits, regbit_sysfs_show-store}
use fboss_bsp_kmods.Regbit.Setup.{World, Answers, regbit_config_check, regbit_sysfs_init_common}
use fboss_bsp_kmods.Regbit.Setup.{i2c_regmap_cfg, regbit_sysfs_uninit}
use fboss_bsp_kmods.Regbit.Setup.Check.{IsUsable, regbit_config_check-IsUsable}
use fboss_bsp_kmods.Regbit.Setup.Attrs.{ready, checks}
use fboss_bsp_kmods.Regbit.Setup.Lifetime.{outcome, created}
use fboss_bsp_kmods.Regbit.Setup.Lifetime.{
  regbit_sysfs_init_common-outcome, regbit_sysfs_uninit-created,
}

-- Three bits from bit 2 on of register 0x10, read and written.
abbrev reset : Config
reset = record {
  name = codes "reset";
  mode = 0o644;
  reg_addr = 0x10;
  bit_offset = 2;
  num_bits = 3;
  show_func = none;
  store_func = none;
  help_str = [];
  flags = 0;
}

-- The same with no bits.
abbrev no_bits : Config
no_bits = record reset { num_bits = 0 }

reset-Fits : Fits 8 2 3
reset-Fits = omega arith

abbrev ones : Memory
ones = all_hold 0xff

-- A store of 5 into a register of ones clears one bit.
store_five :
    regbit_sysfs_store (found (memory 8)) reset (some 5) 2 ones ≡ (ok 2, update ones 0x10 0xf7)
unfolding regbit_sysfs_store clip_field place_mask place_field merge mask_u32
store_five = refl

show_five :
    regbit_sysfs_show (found (memory 8)) reset (update ones 0x10 0xf7)
    ≡ (ok (codes "0x5\n"), update ones 0x10 0xf7)
unfolding regbit_sysfs_show read_field mask_u32 render render_field print_hex
show_five = refl

show_notes :
    render (record reset { flags = 6; help_str = codes "1: reset" }) 5
    ≡ codes "5\n\nNote:\nRegister 0x10, bit[4:2]\n1: reset\n"
unfolding render render_field print_hex print_dec
show_notes = refl

version : cpld_fw_ver_show (found (memory 8)) ones ≡ (ok (codes "127.255.255\n"), ones)
unfolding cpld_fw_ver_show print_dec
version = refl

regbit_sysfs_store_bits_example :
    ◌≡◌ {A = ℕ} 2 2
    × ((k : ℕ)
        → bit (content 8 (update ones 0x10 0xf7) 0x10) k
          ≡ (if leb 2 k && ltb k 5 then bit 5 (k - 2) else bit (content 8 ones 0x10) k))
    × ((b : ℕ) → b ≢ 0x10 → content 8 (update ones 0x10 0xf7) b ≡ content 8 ones b)
regbit_sysfs_store_bits_example =
    regbit_sysfs_store_bits (memory 8) reset reset-Fits (content 8) (memory-IsRegisterFile 8) 5 2 2
      ones (update ones 0x10 0xf7) store_five

regbit_sysfs_show-store_example : codes "0x5\n" ≡ render reset 5
regbit_sysfs_show-store_example =
    regbit_sysfs_show-store (memory 8) reset reset-Fits (content 8) (memory-IsRegisterFile 8) 5 2 2
      ones (update ones 0x10 0xf7) (update ones 0x10 0xf7) (codes "0x5\n") store_five show_five

regbit_config_check-IsUsable_example :
    (regbit_config_check reset i2c_regmap_cfg ≡ ok tt) ↔ IsUsable reset i2c_regmap_cfg
regbit_config_check-IsUsable_example =
    regbit_config_check-IsUsable reset i2c_regmap_cfg (omega arith) (omega arith) (omega arith)

abbrev empty_world : World
empty_world = record {
  handles = 0;
  attr_arrays = 0;
  entry_arrays = 0;
  locks = 0;
  group = none;
  action = none;
}

abbrev yes_to_all : Answers
yes_to_all = record {
  got_handle = true;
  got_attrs = true;
  got_entries = true;
  create_group = none;
  add_action = none;
}

abbrev two_files : List Config
two_files = reset ∷ record reset { name = codes "power"; mode = 0o444; bit_offset = 5 } ∷ []

-- The second configuration does not fit its register.
abbrev bad_second : List Config
bad_second = reset ∷ record reset { bit_offset = 6 } ∷ []

bad_second_undone :
    regbit_sysfs_init_common yes_to_all bad_second i2c_regmap_cfg empty_world
    ≡ (err 22, empty_world)
unfolding outcome checks regbit_config_check
bad_second_undone =
    regbit_sysfs_init_common-outcome yes_to_all bad_second i2c_regmap_cfg empty_world refl

regbit_sysfs_init_common-outcome_example :
    regbit_sysfs_init_common yes_to_all two_files i2c_regmap_cfg empty_world
    ≡ (ok tt, created two_files empty_world)
unfolding outcome checks regbit_config_check
regbit_sysfs_init_common-outcome_example =
    regbit_sysfs_init_common-outcome yes_to_all two_files i2c_regmap_cfg empty_world refl

regbit_sysfs_uninit-created_example :
    regbit_sysfs_uninit (ready two_files 0) (created two_files empty_world)
    ≡ record empty_world { action = some (ready two_files 0) }
regbit_sysfs_uninit-created_example = regbit_sysfs_uninit-created two_files empty_world refl
