-- ===== src/Tables/Created.antt =====
-- Creating the files of a table on an I2C bus fails only for what the kernel answers.
use fboss_bsp_kmods.Base.{ℕ, ◌≡◌, arith, refl, none, some, get_elem?, List, not, if◌then◌else◌}
use fboss_bsp_kmods.Kernel.{Ret, ok, err}
use fboss_bsp_kmods.Kernel.Errno.{enomem}
use fboss_bsp_kmods.Regbit.{Config}
use fboss_bsp_kmods.Regbit.Setup.{World, Answers, i2c_regmap_cfg, regbit_sysfs_init_i2c}
use fboss_bsp_kmods.Regbit.Setup.Lifetime.{outcome, after, regbit_sysfs_init_common-outcome}
use fboss_bsp_kmods.Tables.Sound.{i2c_tables, i2c_table_sound, sound-checks}

-- The first refusal of the kernel.
abbrev pub granted : Answers → Ret (Unit {0})
granted a =
    if not a.got_handle
    then err enomem
    else if not a.got_attrs
    then err enomem
    else if not a.got_entries
    then err enomem
    else elim a.create_group [
      | some e ↦ err e
      | none ↦ elim a.add_action [ some e ↦ err e | none ↦ ok tt ]
    ]

outcome-granted :
    (k : ℕ) (t : List Config)
    → get_elem? i2c_tables k ≡ some t
    → (a : Answers) → outcome a t i2c_regmap_cfg ≡ granted a
unfolding outcome
outcome-granted k t at_k a =
    ground (arith, sound-checks i2c_regmap_cfg t (i2c_table_sound k t at_k))

-- Once the register map is set up, for every table of a driver on an I2C bus and a device that
-- has no group yet, creating the files fails only with what the kernel refuses first, and then
-- leaves everything as it was, or succeeds with everything created: no table is refused by the
-- check.
pub i2c_tables_created :
    (k : ℕ) (t : List Config) (a : Answers) (w : World)
    → get_elem? i2c_tables k ≡ some t
    → w.group ≡ none
    → regbit_sysfs_init_i2c none a t w ≡ (granted a, after (granted a) t w)
unfolding regbit_sysfs_init_i2c
i2c_tables_created k t a w at_k g =
    rw (regbit_sysfs_init_common-outcome a t i2c_regmap_cfg w g, outcome-granted k t at_k a) refl
