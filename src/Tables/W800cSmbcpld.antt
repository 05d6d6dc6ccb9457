-- ===== src/Tables/W800cSmbcpld.antt =====
-- kmods/wedge800/w800c_smbcpld_i2c.c: the table of register fields.
use fboss_bsp_kmods.Base.{List, [], ◌∷◌}
use fboss_bsp_kmods.Print.{codes}
use fboss_bsp_kmods.Regbit.{Config}
use fboss_bsp_kmods.Tables.{cpld_fw_ver_show, ro_field, rw_field, shown_by}

abbrev pub sysfs_files : List Config
sysfs_files =
    ro_field (codes "version_id") 0 4 4
    ∷ ro_field (codes "board_id") 0 0 4
    ∷ shown_by cpld_fw_ver_show (codes "fw_ver")
    ∷ ro_field (codes "cpld_ver") 1 0 7
    ∷ ro_field (codes "cpld_minor_ver") 2 0 8
    ∷ ro_field (codes "cpld_sub_ver") 3 0 8
    ∷ rw_field (codes "g202_pwr_en") 0xc4 7 1
    ∷ []
