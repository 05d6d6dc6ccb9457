-- ===== src/Regbit/Setup/Check.antt =====
-- Which configurations `regbit_config_check` accepts.
use fboss_bsp_kmods.Base.{ℕ, ◌^◌, ◌≤◌, ◌<◌, ◌≡◌, ◌≢◌, ◌↔◌, arith, bit_and}
use fboss_bsp_kmods.Bits.{test_bits}
use fboss_bsp_kmods.Kernel.{ok, undefined, Regmap, found}
use fboss_bsp_kmods.Field.{Fits, flag_val_negate}
use fboss_bsp_kmods.Field.Laws.{read_field_no_bits}
use fboss_bsp_kmods.Regbit.{Config, regbit_sysfs_show}
use fboss_bsp_kmods.Regbit.Setup.{RegmapConfig, regbit_config_check}

abbrev pub IsUsable : Config → RegmapConfig → Type 0
IsUsable c cfg =
    Fits cfg.val_bits c.bit_offset c.num_bits
    × (c.reg_addr ≤ cfg.max_register)
    × (bit_and c.mode 0o600 ≢ 0)

-- For registers of at most 32 bits, a configuration with at least one and fewer than 2^31 bits is
-- accepted exactly when its field fits the register, its register is in range and its owner may
-- read or write it.
pub regbit_config_check-IsUsable :
    (c : Config) (cfg : RegmapConfig)
    → cfg.val_bits ≤ 32
    → 0 < c.num_bits
    → c.num_bits < 2 ^ 31
    → (regbit_config_check c cfg ≡ ok tt) ↔ IsUsable c cfg
unfolding regbit_config_check
regbit_config_check-IsUsable c cfg h p q = (λ e. ground arith, λ u. ground arith)

-- A configuration of no bits, with offset, register and mode in order, is accepted for registers
-- of at most 32 bits, and showing its file then runs into an undefined shift once its register is
-- read.
pub regbit_config_check_no_bits :
    {S : Type 0} (m : Regmap S) (c : Config) (cfg : RegmapConfig) (s t : S) (v : ℕ)
    → cfg.val_bits ≤ 32
    → c.num_bits ≡ 0
    → c.bit_offset < cfg.val_bits
    → c.reg_addr ≤ cfg.max_register
    → bit_and c.mode 0o600 ≢ 0
    → m.read c.reg_addr s ≡ (ok v, t)
    → (regbit_config_check c cfg ≡ ok tt) × (regbit_sysfs_show (found m) c s ≡ (undefined, t))
unfolding regbit_config_check regbit_sysfs_show
regbit_config_check_no_bits m c cfg s t v h z off addr mode got = (
  ground arith,
  ground (arith, read_field_no_bits (test_bits c.flags flag_val_negate) c.bit_offset v),
)
