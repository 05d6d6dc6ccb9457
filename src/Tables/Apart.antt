-- ===== src/Tables/Apart.antt =====
-- What the files of a table on an I2C bus promise each other: each has its own part of the registers.
use fboss_bsp_kmods.Base.{
  ℕ, ◌+◌, ◌-◌, ◌/◌, ◌^◌, ◌≤◌, ◌<◌, ◌≡◌, ◌≢◌, ◌⊎◌, inl, inr, arith, ap, true, false, List, some,
  none, get_elem?, Text, ltb, leb, ◌&&◌, if◌then◌else◌,
}
use fboss_bsp_kmods.Bits.{bit, test_bits}
use fboss_bsp_kmods.Bits.Laws.{bit_mod, bit_shr, eq_of_bits, mod_lt_pow}
use fboss_bsp_kmods.Kernel.{ok, Regmap, IsRegisterFile, found}
use fboss_bsp_kmods.Field.{Fits, field_of, flag_val_negate}
use fboss_bsp_kmods.Regbit.{Config, render, regbit_sysfs_show, regbit_sysfs_store}
use fboss_bsp_kmods.Regbit.Setup.{i2c_regmap_cfg}
use fboss_bsp_kmods.Regbit.Setup.Check.{regbit_config_check-IsUsable}
use fboss_bsp_kmods.Regbit.Access.{shown, show_effect, regbit_sysfs_store_bits}
use fboss_bsp_kmods.Tables.Sound.{usable, apart, i2c_tables, i2c_table_sound}
use fboss_bsp_kmods.Tables.Sound.{sound-usable, sound-apart, passes_ok}

-- A field is the same in two values that have the same bits where the field is.
field_agrees :
    (off n a b : ℕ)
    → ((k : ℕ) → off ≤ k → k < off + n → bit a k ≡ bit b k)
    → field_of off n a ≡ field_of off n b
field_agrees off n a b h =
    eq_of_bits n (field_of off n a) (field_of off n b) (mod_lt_pow (a / 2 ^ off) n)
      (mod_lt_pow (b / 2 ^ off) n)
      (λ k p. ground (
        arith,
        bit_mod n (a / 2 ^ off) k,
        bit_mod n (b / 2 ^ off) k,
        bit_shr off a k,
        bit_shr off b k,
        h (off + k) (omega arith) (omega arith),
      ))

same_register : (a b : ℕ) → (a ≡ b) ⊎ (a ≢ b)
same_register a b = ground arith

usable-Fits :
    (c : Config)
    → usable i2c_regmap_cfg c ≡ true
    → c.show_func ≡ none
    → Fits 8 c.bit_offset c.num_bits
usable-Fits c h plain =
    let passed = passes_ok c i2c_regmap_cfg (ground arith) in
    ((regbit_config_check-IsUsable c i2c_regmap_cfg (omega arith) (ground arith) (ground arith)).0
      passed).0

usable_plain :
    (c : Config) → usable i2c_regmap_cfg c ≡ true → test_bits c.flags flag_val_negate ≡ false
usable_plain c h = ground arith

shown_agrees :
    (d : Config) (a b : ℕ)
    → test_bits d.flags flag_val_negate ≡ false
    → field_of d.bit_offset d.num_bits a ≡ field_of d.bit_offset d.num_bits b
    → shown d a ≡ shown d b
shown_agrees d a b plain e = ground (arith, plain, e)

-- Changing the field of one entry leaves that of another.
field_kept :
    (c d : Config) (value : ℕ) (old new : ℕ → ℕ)
    → apart c d ≡ true
    → ((k : ℕ)
        → bit (new c.reg_addr) k ≡ (
            if leb c.bit_offset k && ltb k (c.bit_offset + c.num_bits)
            then bit value (k - c.bit_offset)
            else bit (old c.reg_addr) k))
    → ((b : ℕ) → b ≢ c.reg_addr → new b ≡ old b)
    → field_of d.bit_offset d.num_bits (new d.reg_addr)
      ≡ field_of d.bit_offset d.num_bits (old d.reg_addr)
field_kept c d value old new separate inside outside = elim (same_register d.reg_addr c.reg_addr) [
  | inl e ↦ field_agrees d.bit_offset d.num_bits (new d.reg_addr) (old d.reg_addr) (λ k lo hi.
      ground (arith, e, inside k, ap (λ (r : ℕ). bit (new r) k) e, ap (λ (r : ℕ). bit (old r) k) e))
  | inr ne ↦ ap (field_of d.bit_offset d.num_bits) (outside d.reg_addr ne)
]

-- For two different entries of one table of a driver on an I2C bus, both shown by the default
-- method, on 8-bit registers that keep what is written, a store to the first that succeeds does
-- not change what the second shows.
pub i2c_tables_apart :
    {S : Type 0} (m : Regmap S) (reg : S → ℕ → ℕ) (file : IsRegisterFile m 8 reg) (k i j : ℕ)
    (t : List Config) (c d : Config) (value count n : ℕ) (s s' u u' : S) (before after : Text)
    → get_elem? i2c_tables k ≡ some t
    → get_elem? t i ≡ some c
    → get_elem? t j ≡ some d
    → i ≢ j
    → c.show_func ≡ none
    → d.show_func ≡ none
    → regbit_sysfs_show (found m) d s ≡ (ok before, u)
    → regbit_sysfs_store (found m) c (some value) count s ≡ (ok n, s')
    → regbit_sysfs_show (found m) d s' ≡ (ok after, u')
    → after ≡ before
i2c_tables_apart m reg file k i j t c d value count n s s' u u' before after at_k at_i at_j ne cp dp
      shown_before put shown_after =
    let good = i2c_table_sound k t at_k in
    let usable_c = sound-usable i2c_regmap_cfg t i c good at_i in
    let usable_d = sound-usable i2c_regmap_cfg t j d good at_j in
    let separate : apart c d ≡ true = sound-apart i2c_regmap_cfg t i j c d good at_i at_j ne in
    let fits_c = usable-Fits c usable_c cp in
    let fits_d = usable-Fits d usable_d dp in
    let (_, inside, outside) = regbit_sysfs_store_bits m c fits_c reg file value count n s s' put in
    let same = field_kept c d value (reg s) (reg s') separate inside outside in
    ground (
      arith,
      show_effect m d fits_d reg file s u before shown_before,
      show_effect m d fits_d reg file s' u' after shown_after,
      ap (λ (r : ℕ). render d r)
          (shown_agrees d (reg s' d.reg_addr) (reg s d.reg_addr) (usable_plain d usable_d) same),
    )
