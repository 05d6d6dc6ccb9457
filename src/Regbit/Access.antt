-- ===== src/Regbit/Access.antt =====
-- What the show and store methods of a register field do to the register.
use fboss_bsp_kmods.Base.{ℕ, ◌+◌, ◌-◌, ◌*◌, ◌%◌, ◌^◌, ◌<◌, ◌≡◌, ◌≢◌, arith, Text}
use fboss_bsp_kmods.Base.{some, if◌then◌else◌, leb, ltb, ◌&&◌, ap, sym, ◌∙◌}
use fboss_bsp_kmods.Bits.{bit, not_u32, test_bits}
use fboss_bsp_kmods.Bits.Laws.{bit_mod, mod_lt_pow}
use fboss_bsp_kmods.Kernel.{ok, and_then, Regmap, IsRegisterFile, update}
use fboss_bsp_kmods.Kernel.{and_then_ok, read_keeps, pure, found}
use fboss_bsp_kmods.Field.{Fits, field_of, merge, flag_val_negate}
use fboss_bsp_kmods.Field.Laws.{clip_field_ok, place_mask_ok, place_field_ok, read_field_ok}
use fboss_bsp_kmods.Field.Laws.{bit-merge, merge_lt, field_of-merge, field_of-not_u32}
use fboss_bsp_kmods.Regbit.{Config, render, store_into, show_from}
use fboss_bsp_kmods.Regbit.{regbit_sysfs_show, regbit_sysfs_store}

-- The value that show prints for a register.
abbrev pub shown : Config → ℕ → ℕ
shown c reg_val =
    field_of c.bit_offset c.num_bits
      (if test_bits c.flags flag_val_negate then not_u32 reg_val else reg_val)

-- The register that a store leaves.
abbrev pub stored : Config → ℕ → ℕ → ℕ
stored c value reg_val =
    merge reg_val ((2 ^ c.num_bits - 1) * 2 ^ c.bit_offset)
      (value % 2 ^ c.num_bits * 2 ^ c.bit_offset)

module _ {S : Type 0} (m : Regmap S) (c : Config) {w : ℕ} (f : Fits w c.bit_offset c.num_bits) where
  store_into_lem :
      (value : ℕ) (s : S)
      → store_into c value m s
        ≡ and_then (m.read c.reg_addr s) (λ v. m.write c.reg_addr (stored c value v))
  store_into_lem value s = simp (
    clip_field_ok f value,
    place_mask_ok f,
    place_field_ok f (value % 2 ^ c.num_bits) (mod_lt_pow value c.num_bits),
  )

  show_from_lem :
      (s : S) → show_from c m s ≡ and_then (m.read c.reg_addr s) (λ v. pure (render c (shown c v)))
  show_from_lem s = simp (read_field_ok f)

  -- Showing a field that fits its register reads the register once and prints the field, or under
  -- VAL_NEGATE that of the complement, and passes a failed read on.
  pub regbit_sysfs_show_refines :
      (s : S)
      → regbit_sysfs_show (found m) c s
        ≡ and_then (m.read c.reg_addr s) (λ v. pure (render c (shown c v)))
  unfolding regbit_sysfs_show
  regbit_sysfs_show_refines s = show_from_lem s

  module _ (reg : S → ℕ → ℕ) (file : IsRegisterFile m w reg) where
    -- A successful store leaves `stored` in its register, and the other registers alone.
    store_effect :
        (value count n : ℕ) (s t : S)
        → regbit_sysfs_store (found m) c (some value) count s ≡ (ok n, t)
        → (n ≡ count)
          × ((b : ℕ) → reg t b ≡ update (reg s) c.reg_addr (stored c value (reg s c.reg_addr)) b)
    unfolding regbit_sysfs_store
    store_effect value count n s t h =
        let (x, u, e, done) = and_then_ok (store_into c value m s) (λ _. pure count) h in
        let (v, s', got, put) =
          and_then_ok (m.read c.reg_addr s) (λ v. m.write c.reg_addr (stored c value v))
            (sym (store_into_lem value s) ∙ e) in
        let same : v ≡ reg s c.reg_addr = file.read_ok s c.reg_addr v s' got in
        let small : v < 2 ^ w = omega (arith, file.reg_lt s c.reg_addr) in
        let small' : stored c value v < 2 ^ w =
          merge_lt f v (value % 2 ^ c.num_bits) small (mod_lt_pow value c.num_bits) in
        (
          ground arith,
          λ b. ground (
            arith,
            file.write_ok s' c.reg_addr (stored c value v) u b small' put,
            read_keeps file s s' c.reg_addr b got,
            ap (stored c value) same,
          ),
        )

    -- On registers that keep what is written, a store to a file whose field fits its register, if
    -- it succeeds, returns the length of the buffer, puts the low bits of the value into the
    -- field bit by bit, and changes no other bit of the register and no other register.
    pub regbit_sysfs_store_bits :
        (value count n : ℕ) (s t : S)
        → regbit_sysfs_store (found m) c (some value) count s ≡ (ok n, t)
        → (n ≡ count)
          × ((k : ℕ)
              → bit (reg t c.reg_addr) k ≡ (
                  if leb c.bit_offset k && ltb k (c.bit_offset + c.num_bits)
                  then bit value (k - c.bit_offset)
                  else bit (reg s c.reg_addr) k))
          × ((b : ℕ) → b ≢ c.reg_addr → reg t b ≡ reg s b)
    regbit_sysfs_store_bits value count n s t h =
        let effect = store_effect value count n s t h in
        let low = value % 2 ^ c.num_bits in
        (
          effect.0,
          λ k. ground (
            arith,
            ap (λ (r : ℕ). bit r k) (effect.1 c.reg_addr),
            bit-merge f (reg s c.reg_addr) low k (file.reg_lt s c.reg_addr)
                (mod_lt_pow value c.num_bits),
            bit_mod c.num_bits value (k - c.bit_offset),
          ),
          λ b ne. ground (arith, effect.1 b),
        )

    pub show_effect :
        (s t : S) (text : Text)
        → regbit_sysfs_show (found m) c s ≡ (ok text, t)
        → text ≡ render c (shown c (reg s c.reg_addr))
    unfolding regbit_sysfs_show
    show_effect s t text h =
        let (v, s', got, printed) =
          and_then_ok (m.read c.reg_addr s) (λ v. pure (render c (shown c v)))
            (sym (show_from_lem s) ∙ h) in
        let same : v ≡ reg s c.reg_addr = file.read_ok s c.reg_addr v s' got in
        ground (arith, ap (λ (r : ℕ). render c (shown c r)) same)

    -- On registers that keep what is written, reading a file whose field fits its register, after
    -- a store that succeeded, prints the low bits of the value stored, or under VAL_NEGATE their
    -- complement.
    pub regbit_sysfs_show-store :
        (value count n : ℕ) (s t u : S) (text : Text)
        → regbit_sysfs_store (found m) c (some value) count s ≡ (ok n, t)
        → regbit_sysfs_show (found m) c t ≡ (ok text, u)
        → text
          ≡ render c (
              if test_bits c.flags flag_val_negate
              then 2 ^ c.num_bits - 1 - value % 2 ^ c.num_bits
              else value % 2 ^ c.num_bits)
    regbit_sysfs_show-store value count n s t u text put got =
        let old = reg s c.reg_addr in
        let low = value % 2 ^ c.num_bits in
        let now : reg t c.reg_addr ≡ stored c value old =
          ground (arith, (store_effect value count n s t put).1 c.reg_addr) in
        let small = file.reg_lt s c.reg_addr in
        let short = mod_lt_pow value c.num_bits in
        let held = field_of-merge f old low small short in
        let negated = field_of-not_u32 f (stored c value old) (merge_lt f old low small short) in
        ground (
          arith,
          show_effect t u text got,
          ap (λ (r : ℕ). render c (shown c r)) now,
          ap (λ (x : ℕ). render c x) held,
          ap (λ (x : ℕ). render c x) negated,
          ap (λ (x : ℕ). render c (2 ^ c.num_bits - 1 - x)) held,
        )
