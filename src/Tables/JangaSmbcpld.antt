-- ===== src/Tables/JangaSmbcpld.antt =====
-- kmods/mtia/janga_smbcpld_i2c.c: the table of register fields.
use fboss_bsp_kmods.Base.{List, [], ◌∷◌}
use fboss_bsp_kmods.Print.{codes}
use fboss_bsp_kmods.Regbit.{Config}
use fboss_bsp_kmods.Tables.{cpld_fw_ver_show, ro_field, rw_field, shown_by}

abbrev pub sysfs_files : List Config
sysfs_files =
    ro_field (codes "board_ver") 0 4 3
    ∷ shown_by cpld_fw_ver_show (codes "fw_ver")
    ∷ ro_field (codes "cpld_ver") 1 0 7
    ∷ ro_field (codes "cpld_minor_ver") 2 0 8
    ∷ ro_field (codes "cpld_sub_ver") 3 0 8
    ∷ rw_field (codes "j3a_pwr_en") 7 5 1
    ∷ rw_field (codes "j3b_pwr_en") 7 6 1
    ∷ ro_field (codes "j3b_ot_status_changed") 0xcc 7 1
    ∷ ro_field (codes "j3b_ot_status") 0xcc 6 1
    ∷ ro_field (codes "j3a_ot_status_changed") 0xcc 5 1
    ∷ ro_field (codes "j3a_ot_status") 0xcc 4 1
    ∷ ro_field (codes "asic_ot_status_flag") 0xcc 2 1
    ∷ ro_field (codes "asic_ot_status") 0xcc 1 1
    ∷ ro_field (codes "asic_ot_protect_en") 0xcc 0 1
    ∷ []
