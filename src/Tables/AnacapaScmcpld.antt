-- ===== src/Tables/AnacapaScmcpld.antt =====
-- kmods/anacapa/anacapa_scmcpld_i2c.c: the table of register fields.
use fboss_bsp_kmods.Base.{List, [], ◌∷◌, ◌++◌}
use fboss_bsp_kmods.Print.{codes}
use fboss_bsp_kmods.Regbit.{Config}
use fboss_bsp_kmods.Tables.{cpld_fw_ver_show, ro_field, rw_field, shown_by}

abbrev pub first_files : List Config
first_files =
    ro_field (codes "board_id") 0 0 4
    ∷ ro_field (codes "version_id") 0 4 4
    ∷ shown_by cpld_fw_ver_show (codes "fw_ver")
    ∷ ro_field (codes "cpld_ver") 1 0 7
    ∷ ro_field (codes "cpld_minor_ver") 2 0 8
    ∷ ro_field (codes "cpld_sub_ver") 3 0 8
    ∷ rw_field (codes "i210_rst") 0xf 0 1
    ∷ rw_field (codes "bmc_lpc_rst") 0xf 3 1
    ∷ rw_field (codes "come_sys_warm_rst") 0xf 5 1
    ∷ rw_field (codes "come_sys_rst_btn") 0xf 6 1
    ∷ rw_field (codes "rtc_rst") 0x10 0 1
    ∷ rw_field (codes "scm_iob_pcie_rst") 0x10 2 1
    ∷ rw_field (codes "e1s_ssd_rst") 0x10 3 1
    ∷ ro_field (codes "come_sta_misc_1") 0x11 0 8
    ∷ ro_field (codes "come_sta_misc_2") 0x12 0 8
    ∷ ro_field (codes "come_sta_misc_3") 0x13 0 8
    ∷ ro_field (codes "scm_hs_pwr_sta") 0x21 3 1
    ∷ ro_field (codes "scm_come_mod_sta") 0x21 5 1
    ∷ []

abbrev pub last_files : List Config
last_files =
    ro_field (codes "scm_bmc_mod_sta") 0x21 6 1
    ∷ ro_field (codes "hs_fault_sta") 0x27 2 1
    ∷ ro_field (codes "usb_xp5p0_sta") 0x27 3 1
    ∷ ro_field (codes "hs_pg_sta") 0x2a 0 1
    ∷ ro_field (codes "xp3p3_bmc_pg_sta") 0x2a 1 1
    ∷ ro_field (codes "xp3p3_i210_pg_sta") 0x2a 3 1
    ∷ ro_field (codes "xp3p3_ssd_pg_sta") 0x2a 4 1
    ∷ ro_field (codes "xp5p0_come_pg_sta") 0x2a 5 1
    ∷ ro_field (codes "xp12p0_come_pg_sta") 0x2a 6 1
    ∷ ro_field (codes "pcie_gen4_los_sta") 0x2d 1 1
    ∷ ro_field (codes "oob_phy_sta") 0x2d 4 1
    ∷ ro_field (codes "iob_i2c_rdy_sta") 0x2d 5 1
    ∷ ro_field (codes "bmc_i2c_rdy_sta") 0x2d 6 1
    ∷ ro_field (codes "i210_lan_wake_sta") 0x2d 7 1
    ∷ ro_field (codes "smb_pg_sta") 0x30 0 1
    ∷ ro_field (codes "scm_pg_sta") 0x30 1 1
    ∷ ro_field (codes "mcb_pg_sta") 0x30 2 1
    ∷ ro_field (codes "bmc_rdy_sta") 0x30 5 1
    ∷ []

abbrev pub sysfs_files : List Config
sysfs_files = first_files ++ last_files
