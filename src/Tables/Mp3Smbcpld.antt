-- ===== src/Tables/Mp3Smbcpld.antt =====
-- kmods/montblanc/mp3_smbcpld_i2c.c: the table of register fields.
use fboss_bsp_kmods.Base.{List, [], ◌∷◌, ◌++◌}
use fboss_bsp_kmods.Print.{codes}
use fboss_bsp_kmods.Regbit.{Config}
use fboss_bsp_kmods.Tables.{cpld_fw_ver_show, ro_field, rw_field, shown_by}

abbrev pub first_files : List Config
first_files =
    ro_field (codes "board_id") 0 0 4
    ∷ ro_field (codes "version_id") 0 4 3
    ∷ shown_by cpld_fw_ver_show (codes "fw_ver")
    ∷ ro_field (codes "cpld_ver") 1 0 8
    ∷ ro_field (codes "cpld_minor_ver") 2 0 8
    ∷ ro_field (codes "cpld_sub_ver") 3 0 8
    ∷ rw_field (codes "th5_pwr_en") 8 0 1
    ∷ ro_field (codes "xp3p3_pg") 0xc 7 1
    ∷ ro_field (codes "xp3p3_smb_pg") 0xc 6 1
    ∷ ro_field (codes "xp3p3_clk_pg") 0xc 5 1
    ∷ ro_field (codes "xp3p3_l_osfp_pg") 0xc 4 1
    ∷ ro_field (codes "xp3p3_r_osfp_pg") 0xc 3 1
    ∷ ro_field (codes "xp1p8_clk_pg") 0xc 2 1
    ∷ []

abbrev pub last_files : List Config
last_files =
    ro_field (codes "xp1p8_pg") 0xc 1 1
    ∷ ro_field (codes "xp1p2_pg") 0xc 0 1
    ∷ ro_field (codes "vr_alert_xp12r0v_scm_int") 0x16 5 1
    ∷ ro_field (codes "vr_alert_xp3r3v_left_int") 0x16 4 1
    ∷ ro_field (codes "vr_alert_xp3r3v_right_int") 0x16 3 1
    ∷ ro_field (codes "vr_alert_th5_trvdd_1_int") 0x16 2 1
    ∷ ro_field (codes "vr_alert_th5_trvdd_0_int") 0x16 1 1
    ∷ ro_field (codes "vr_alert_th5_vdd_core_int") 0x16 0 1
    ∷ ro_field (codes "vr_alert_xp12r0v_scm_sta") 0x17 5 1
    ∷ ro_field (codes "vr_alert_xp3r3v_left_sta") 0x17 4 1
    ∷ ro_field (codes "vr_alert_xp3r3v_right_sta") 0x17 3 1
    ∷ ro_field (codes "vr_alert_th5_trvdd_1_sta") 0x17 2 1
    ∷ ro_field (codes "vr_alert_th5_trvdd_0_sta") 0x17 1 1
    ∷ ro_field (codes "vr_alert_th5_vdd_core_sta") 0x17 0 1
    ∷ []

abbrev pub sysfs_files : List Config
sysfs_files = first_files ++ last_files
