-- ===== src/Tables/FpgaInfo.antt =====
-- kmods/fboss_iob_info_aux.c: the table of register fields.
use fboss_bsp_kmods.Base.{List, [], ◌∷◌}
use fboss_bsp_kmods.Print.{codes}
use fboss_bsp_kmods.Regbit.{Config}
use fboss_bsp_kmods.Tables.{fpga_fw_ver_show, ro_field, shown_by}

abbrev pub sysfs_files : List Config
sysfs_files =
    ro_field (codes "board_rev") 0 0 4
    ∷ ro_field (codes "board_id") 0 4 4
    ∷ shown_by fpga_fw_ver_show (codes "fw_ver")
    ∷ ro_field (codes "fpga_sub_ver") 0 8 8
    ∷ ro_field (codes "fpga_ver") 0 16 8
    ∷ ro_field (codes "device_id") 0 24 8
    ∷ []
