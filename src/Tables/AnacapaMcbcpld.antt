-- ===== src/Tables/AnacapaMcbcpld.antt =====
-- kmods/anacapa/anacapa_mcbcpld_i2c.c: the table of register fields.
use fboss_bsp_kmods.Base.{List, [], ◌∷◌}
use fboss_bsp_kmods.Print.{codes}
use fboss_bsp_kmods.Regbit.{Config}
use fboss_bsp_kmods.Tables.{cpld_fw_ver_show, ro_field, rw_field, shown_by}

abbrev pub sysfs_files : List Config
sysfs_files =
    ro_field (codes "version_id") 0 4 4
    ∷ ro_field (codes "board_id") 0 0 4
    ∷ shown_by cpld_fw_ver_show (codes "fw_ver")
    ∷ ro_field (codes "cpld_ver") 1 0 7
    ∷ ro_field (codes "cpld_minor_ver") 2 0 8
    ∷ ro_field (codes "cpld_sub_ver") 3 0 8
    ∷ rw_field (codes "oob_eeprom_wp") 6 2 1
    ∷ rw_field (codes "oob_eeprom_sel") 6 3 1
    ∷ ro_field (codes "smbl_pg") 0xa 1 1
    ∷ ro_field (codes "hs_48v_pg") 0xa 6 1
    ∷ ro_field (codes "rtml_pg") 0xb 4 1
    ∷ ro_field (codes "rtmr_pg") 0xb 5 1
    ∷ ro_field (codes "smbr_pg") 0xb 6 1
    ∷ ro_field (codes "smbl_present") 0x10 5 1
    ∷ ro_field (codes "smbr_present") 0x12 3 1
    ∷ []
