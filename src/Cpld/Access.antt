-- ===== src/Cpld/Access.antt =====
-- Which attributes are accepted, and what the show and store methods of an accepted one do to its
-- register.
use fboss_bsp_kmods.Base.{ℕ, ◌+◌, ◌-◌, ◌*◌, ◌%◌, ◌^◌, ◌≤◌, ◌≡◌, ◌≢◌, ◌↔◌, arith}
use fboss_bsp_kmods.Base.{true, false, some, if◌then◌else◌, leb, ltb, ◌&&◌, ap}
use fboss_bsp_kmods.Base.{sym, ◌∙◌, bit_and, bit_or, Bool-cases, inl, inr}
use fboss_bsp_kmods.Bits.{bit, not_u32, test_bits}
use fboss_bsp_kmods.Bits.Laws.{bit_mod, bit_shl, mod_lt_pow}
use fboss_bsp_kmods.Kernel.{ok, and_then, Regmap, IsRegisterFile}
use fboss_bsp_kmods.Kernel.{and_then_ok, pure, found, UpdateBits, IsUpdate}
use fboss_bsp_kmods.Field.{Fits, field_of, merge, flag_val_negate, render_field}
use fboss_bsp_kmods.Field.Laws.{clip_field_ok, place_mask_ok, place_field_ok, read_field_ok}
use fboss_bsp_kmods.Field.Laws.{bit-merge, place_in_mask, place_bound}
use fboss_bsp_kmods.Cpld.{SysfsAttr, fbcpld_validate_attr, is_empty, fbcpld_dyn_show}
use fboss_bsp_kmods.Cpld.{fbcpld_dyn_store, store_into, s_irusr}

-- An attribute is accepted exactly when it has a name, its owner may read or write it, its
-- register is one of the 256, and its field has at least one bit and fits 8 bits.
pub fbcpld_validate_attr_iff :
    (cfg : SysfsAttr)
    → (fbcpld_validate_attr cfg ≡ ok tt) ↔ (
        (is_empty cfg.name ≡ false)
        × (bit_and cfg.mode 0o600 ≢ 0)
        × (cfg.reg_addr ≤ 0xFF)
        × Fits 8 cfg.bit_offset cfg.num_bits)
unfolding fbcpld_validate_attr
fbcpld_validate_attr_iff cfg = (λ e. ground arith, λ u. ground arith)

module _ {S : Type 0} (m : Regmap S) (cfg : SysfsAttr)
    (passed : fbcpld_validate_attr cfg ≡ ok tt) where
  fits : Fits 8 cfg.bit_offset cfg.num_bits
  fits = ((fbcpld_validate_attr_iff cfg).0 passed).3

  -- Showing an accepted attribute reads its register, once, and prints the field, or under
  -- VAL_NEGATE the field of the complement; a failed read is passed on.
  pub fbcpld_dyn_show_refines :
      (s : S)
      → fbcpld_dyn_show (found m) cfg s
        ≡ and_then (m.read cfg.reg_addr s) (λ v. pure (
            render_field cfg.flags cfg.reg_addr cfg.bit_offset cfg.num_bits cfg.help_str (
              field_of cfg.bit_offset cfg.num_bits
                (if test_bits cfg.flags flag_val_negate then not_u32 v else v))))
  unfolding fbcpld_dyn_show
  fbcpld_dyn_show_refines s = simp (read_field_ok fits)

  module _ (update_bits : UpdateBits S) (reg : S → ℕ → ℕ) (file : IsRegisterFile m 8 reg)
      (updates : IsUpdate 8 update_bits reg) where
    abbrev low : ℕ → ℕ
    low value = value % 2 ^ cfg.num_bits

    store_readable :
        (value : ℕ) (s : S)
        → test_bits cfg.mode s_irusr ≡ true
        → store_into update_bits cfg value m s
          ≡ update_bits cfg.reg_addr
              ((2 ^ cfg.num_bits - 1) * 2 ^ cfg.bit_offset)
              (low value * 2 ^ cfg.bit_offset)
              s
    store_readable value s r = simp (
      clip_field_ok fits value,
      place_field_ok fits (low value) (mod_lt_pow value cfg.num_bits),
      r,
      place_mask_ok fits,
    )

    store_hidden :
        (value : ℕ) (s : S)
        → test_bits cfg.mode s_irusr ≡ false
        → store_into update_bits cfg value m s
          ≡ m.write cfg.reg_addr (low value * 2 ^ cfg.bit_offset) s
    store_hidden value s r = simp (
      clip_field_ok fits value,
      place_field_ok fits (low value) (mod_lt_pow value cfg.num_bits),
      r,
    )

    -- On registers that keep what is written, a store to an accepted attribute, if it succeeds,
    -- returns the length of the buffer, puts the low bits of the value into the field bit by bit,
    -- keeps the other bits of the register if the owner may read the file and clears them if not,
    -- and changes no other register.
    pub fbcpld_dyn_store_bits :
        (value count n : ℕ) (s t : S)
        → fbcpld_dyn_store update_bits (found m) cfg (some value) count s ≡ (ok n, t)
        → (n ≡ count)
          × ((k : ℕ)
              → bit (reg t cfg.reg_addr) k ≡ (
                  if leb cfg.bit_offset k && ltb k (cfg.bit_offset + cfg.num_bits)
                  then bit value (k - cfg.bit_offset)
                  else if test_bits cfg.mode s_irusr
                  then bit (reg s cfg.reg_addr) k
                  else 0))
          × ((b : ℕ) → b ≢ cfg.reg_addr → reg t b ≡ reg s b)
    unfolding fbcpld_dyn_store merge
    fbcpld_dyn_store_bits value count n s t h =
        let (x, u, e, done) =
          and_then_ok (store_into update_bits cfg value m s) (λ _. pure count) h in
        let short = mod_lt_pow value cfg.num_bits in
        let small = place_bound fits (low value) short in
        let mask = (2 ^ cfg.num_bits - 1) * 2 ^ cfg.bit_offset in
        let bits = low value * 2 ^ cfg.bit_offset in
        let old = reg s cfg.reg_addr in
        elim (Bool-cases (test_bits cfg.mode s_irusr)) [
          | inl r ↦
              let effect = λ (b : ℕ).
                updates.update_ok s cfg.reg_addr mask bits u b small
                  (sym (store_readable value s r) ∙ e) in
              let same : reg u cfg.reg_addr ≡ merge old mask bits = ground (
                arith,
                updates.update_ok s cfg.reg_addr mask bits u cfg.reg_addr small
                    (sym (store_readable value s r) ∙ e),
                ap (bit_or (bit_and old (not_u32 mask))) (place_in_mask fits (low value) short),
              ) in
              (
                ground arith,
                λ k. ground (
                  arith,
                  ap (λ (v : ℕ). bit v k) same,
                  bit-merge fits old (low value) k (file.reg_lt s cfg.reg_addr) short,
                  bit_mod cfg.num_bits value (k - cfg.bit_offset),
                ),
                λ b ne. ground (arith, effect b),
              )
          | inr r ↦
              let effect = λ (b : ℕ).
                file.write_ok s cfg.reg_addr bits u b small (sym (store_hidden value s r) ∙ e) in
              (
                ground arith,
                λ k. ground (
                  arith,
                  ap (λ (v : ℕ). bit v k) (effect cfg.reg_addr),
                  bit_shl cfg.bit_offset (low value) k,
                  bit_mod cfg.num_bits value (k - cfg.bit_offset),
                ),
                λ b ne. ground (arith, effect b),
              )
        ]
