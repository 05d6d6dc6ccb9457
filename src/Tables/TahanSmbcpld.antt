-- ===== src/Tables/TahanSmbcpld.antt =====
-- kmods/mtia/tahan_smbcpld_i2c.c: the table of register fields.
use fboss_bsp_kmods.Base.{List, [], ◌∷◌}
use fboss_bsp_kmods.Print.{codes}
use fboss_bsp_kmods.Regbit.{Config}
use fboss_bsp_kmods.Tables.{cpld_fw_ver_show, ro_field, rw_field, shown_by}

abbrev pub sysfs_files : List Config
sysfs_files =
    ro_field (codes "board_ver") 0 0 3
    ∷ shown_by cpld_fw_ver_show (codes "fw_ver")
    ∷ ro_field (codes "cpld_ver") 1 0 8
    ∷ ro_field (codes "cpld_minor_ver") 2 0 8
    ∷ ro_field (codes "cpld_sub_ver") 3 0 8
    ∷ rw_field (codes "th5_pwr_en") 8 0 1
    ∷ ro_field (codes "asic_ot_status_changed") 0xbc 2 1
    ∷ ro_field (codes "asic_ot_status") 0xbc 1 1
    ∷ rw_field (codes "asic_ot_protect_en") 0xbc 0 1
    ∷ []
