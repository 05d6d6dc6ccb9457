-- ===== src/Tables/Sound.antt =====
-- What makes a table of register fields sound, tested by computing, and that every table is.
use fboss_bsp_kmods.Base.{
  ℕ, zero, suc, ◌+◌, ◌≡◌, ◌≢◌, arith, refl, Bool, true, false, not, ◌&&◌, ◌||◌, ltb, leb, ◌==◌,
}
use fboss_bsp_kmods.Base.{get_elem?, inl, inr, ap, sym}
use fboss_bsp_kmods.Bits.{test_bits}
use fboss_bsp_kmods.Field.{flag_val_negate}
use fboss_bsp_kmods.Regbit.Setup.Attrs.{checks}
use fboss_bsp_kmods.Base.{List, [], ◌∷◌, none, some, text_eq}
use fboss_bsp_kmods.Kernel.{ok, err, undefined, Ret-cases}
use fboss_bsp_kmods.Regbit.{Config, Callback}
use fboss_bsp_kmods.Regbit.Setup.{
  RegmapConfig, i2c_regmap_cfg, mmio_regmap_cfg, regbit_config_check,
}
use fboss_bsp_kmods.Tables.Mp3Scmcpld
use fboss_bsp_kmods.Tables.Mp3Smbcpld
use fboss_bsp_kmods.Tables.Mp3nScmcpld
use fboss_bsp_kmods.Tables.W800Scmcpld
use fboss_bsp_kmods.Tables.W800bSmbcpld
use fboss_bsp_kmods.Tables.W800cSmbcpld
use fboss_bsp_kmods.Tables.AnacapaScmcpld
use fboss_bsp_kmods.Tables.AnacapaMcbcpld
use fboss_bsp_kmods.Tables.IcecubeScmcpld
use fboss_bsp_kmods.Tables.IcecubeMcbcpld
use fboss_bsp_kmods.Tables.IcecubePiccpld
use fboss_bsp_kmods.Tables.TahansbScmcpld
use fboss_bsp_kmods.Tables.IceteaScmcpld
use fboss_bsp_kmods.Tables.Leh800bScmcpld
use fboss_bsp_kmods.Tables.Leh800bPdbcpld
use fboss_bsp_kmods.Tables.JangaSmbcpld
use fboss_bsp_kmods.Tables.MtiaSmbcpld
use fboss_bsp_kmods.Tables.TahanSmbcpld
use fboss_bsp_kmods.Tables.Th6Smbcpld
use fboss_bsp_kmods.Tables.FpgaInfo

abbrev pub passes : Config → RegmapConfig → Bool
passes c cfg = elim (regbit_config_check c cfg) [ ok _ ↦ true | err e ↦ false | undefined ↦ false ]

pub passes_ok :
    (c : Config) (cfg : RegmapConfig) → passes c cfg ≡ true → regbit_config_check c cfg ≡ ok tt
passes_ok c cfg h = elim (Ret-cases (regbit_config_check c cfg)) [
  | inl (_, passed) ↦ passed
  | inr (inl (e, failed)) ↦ absurd (ground (arith, failed))
  | inr (inr lost) ↦ absurd (ground (arith, lost))
]

abbrev pub is_shown : Callback → Bool
is_shown none = false
is_shown (some f) = true

-- A configuration that passes the check and shows its bits as they are, of which it has at least
-- one unless it has a method of its own.
abbrev pub usable : RegmapConfig → Config → Bool
usable cfg c =
    passes c cfg
    && (not (test_bits c.flags flag_val_negate)
        && (ltb c.num_bits 33 && (is_shown c.show_func || ltb 0 c.num_bits)))

-- Two entries have different names and no bit of a register in common.
abbrev pub apart : Config → Config → Bool
apart a b =
    not (text_eq a.name b.name)
    && (not (a.reg_addr == b.reg_addr)
        || (leb (a.bit_offset + a.num_bits) b.bit_offset
            || leb (b.bit_offset + b.num_bits) a.bit_offset))

abbrev apart_from : Config → List Config → Bool
apart_from a [] = true
apart_from a (b ∷ bs) = apart a b && (apart b a && apart_from a bs)

abbrev pub sound : RegmapConfig → List Config → Bool
sound cfg [] = true
sound cfg (c ∷ cs) = usable cfg c && (apart_from c cs && sound cfg cs)

-- The tables of the drivers on an I2C bus.
abbrev pub i2c_tables : List (List Config)
i2c_tables =
    Mp3Scmcpld.sysfs_files ∷ Mp3Smbcpld.sysfs_files ∷ Mp3nScmcpld.sysfs_files
    ∷ W800Scmcpld.sysfs_files ∷ W800bSmbcpld.sysfs_files ∷ W800cSmbcpld.sysfs_files
    ∷ AnacapaScmcpld.sysfs_files ∷ AnacapaMcbcpld.sysfs_files ∷ IcecubeScmcpld.sysfs_files
    ∷ IcecubeMcbcpld.sysfs_files ∷ IcecubePiccpld.sysfs_files ∷ TahansbScmcpld.sysfs_files
    ∷ IceteaScmcpld.sysfs_files ∷ Leh800bScmcpld.sysfs_files ∷ Leh800bPdbcpld.sysfs_files
    ∷ JangaSmbcpld.sysfs_files ∷ MtiaSmbcpld.sysfs_files ∷ TahanSmbcpld.sysfs_files
    ∷ Th6Smbcpld.sysfs_files ∷ []

abbrev all_sound : List (List Config) → Bool
all_sound [] = true
all_sound (t ∷ ts) = sound i2c_regmap_cfg t && all_sound ts

i2c_tables_sound : all_sound i2c_tables ≡ true
unfolding regbit_config_check text_eq
i2c_tables_sound = refl

pub fpga_info_sound : sound mmio_regmap_cfg FpgaInfo.sysfs_files ≡ true
unfolding regbit_config_check text_eq
fpga_info_sound = refl

all_sound_elem :
    (ts : List (List Config)) (k : ℕ) (t : List Config)
    → all_sound ts ≡ true
    → get_elem? ts k ≡ some t
    → sound i2c_regmap_cfg t ≡ true
all_sound_elem [] k t h e = cc
all_sound_elem (t' ∷ ts) zero t h e = ground arith
all_sound_elem (t' ∷ ts) (suc k) t h e = all_sound_elem ts k t (ground arith) e

-- Every table of a driver on an I2C bus is sound.
pub i2c_table_sound :
    (k : ℕ) (t : List Config) → get_elem? i2c_tables k ≡ some t → sound i2c_regmap_cfg t ≡ true
i2c_table_sound k t e = all_sound_elem i2c_tables k t i2c_tables_sound e

module _ (cfg : RegmapConfig) where
  pub sound-checks : (t : List Config) → sound cfg t ≡ true → checks cfg t ≡ ok tt
  unfolding checks
  sound-checks [] h = refl
  sound-checks (c ∷ cs) h =
      let rest = sound-checks cs (ground arith) in
      elim (Ret-cases (regbit_config_check c cfg)) [
        | inl (u, passed) ↦ ground (arith, passed, rest)
        | inr (inl (e, failed)) ↦ absurd (ground (arith, failed))
        | inr (inr lost) ↦ absurd (ground (arith, lost))
      ]

  pub sound-usable :
      (t : List Config) (i : ℕ) (c : Config)
      → sound cfg t ≡ true
      → get_elem? t i ≡ some c
      → usable cfg c ≡ true
  sound-usable [] i c h e = cc
  sound-usable (d ∷ ds) zero c h e = ground arith
  sound-usable (d ∷ ds) (suc i) c h e = sound-usable ds i c (ground arith) e

some_inj : {a b : Config} → some a ≡ some b → a ≡ b
some_inj {a} e = ap (λ o. elim o [ none ↦ a | some x ↦ x ]) e

apart_elem :
    (a : Config) (bs : List Config) (j : ℕ) (b : Config)
    → apart_from a bs ≡ true
    → get_elem? bs j ≡ some b
    → (apart a b ≡ true) × (apart b a ≡ true)
apart_elem a [] j b h e = cc
apart_elem a (b' ∷ bs) zero b h e =
    let same : b' ≡ b = some_inj e in (rw (sym same) ground arith, rw (sym same) ground arith)
apart_elem a (b' ∷ bs) (suc j) b h e = apart_elem a bs j b (ground arith) e

-- Two different entries of a sound table are apart.
pub sound-apart :
    (cfg : RegmapConfig) (t : List Config) (i j : ℕ) (c d : Config)
    → sound cfg t ≡ true
    → get_elem? t i ≡ some c
    → get_elem? t j ≡ some d
    → i ≢ j
    → apart c d ≡ true
sound-apart cfg [] i j c d h at_i at_j ne = cc
sound-apart cfg (x ∷ xs) zero zero c d h at_i at_j ne = absurd (ne refl)
sound-apart cfg (x ∷ xs) zero (suc j) c d h at_i at_j ne =
    let same : x ≡ c = some_inj at_i in rw (sym same) (apart_elem x xs j d (ground arith) at_j).0
sound-apart cfg (x ∷ xs) (suc i) zero c d h at_i at_j ne =
    let same : x ≡ d = some_inj at_j in rw (sym same) (apart_elem x xs i c (ground arith) at_i).1
sound-apart cfg (x ∷ xs) (suc i) (suc j) c d h at_i at_j ne =
    sound-apart cfg xs i j c d (ground arith) at_i at_j (λ e. ne (ap suc e))
