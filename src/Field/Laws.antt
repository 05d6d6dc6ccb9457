-- ===== src/Field/Laws.antt =====
-- What the bit arithmetic of a field computes, where the field fits its register.
use native.Mathlib.Nat.{pow-le-pow_right}
use fboss_bsp_kmods.Base.{ℕ, zero, suc, ◌+◌, ◌-◌, ◌*◌, ◌/◌, ◌%◌, ◌^◌, ◌≤◌, ◌<◌, ◌≡◌, arith, refl}
use fboss_bsp_kmods.Base.{Bool, bit_and, ltb, leb, if◌then◌else◌, ◌&&◌, ap}
use fboss_bsp_kmods.Bits.{bit, u32, not_u32}
use fboss_bsp_kmods.Bits.Laws.{bit_lt, bit-bit_and, bit-bit_or, bit_shl, bit_shr, bit_ones, bit_not}
use fboss_bsp_kmods.Bits.Laws.{
  bit_high, eq_of_bits, bit_or_lt, bit_and_lt, bit_mod, bit_and_ones, pow_add, pow_pos,
}
use fboss_bsp_kmods.Kernel.{ok, undefined}
use fboss_bsp_kmods.Field.{mask_u32, pred_u32, read_field, clip_field, place_mask, place_field}
use fboss_bsp_kmods.Field.{merge, Fits, field_of}

pub pow_le : (a b : ℕ) → a ≤ b → 2 ^ a ≤ 2 ^ b
pow_le a b h = pow-le-pow_right (omega arith) h

add_sub : (a k : ℕ) → a + k - a ≡ k
add_sub a k = omega arith

mul_pred : (p b : ℕ) → 0 < p → p * b - b ≡ (p - 1) * b
mul_pred zero b h = absurd (omega arith)
mul_pred (suc p) b h = let e : suc p - 1 ≡ p = omega arith in rw e (omega arith)

-- The bits of a register after a store: the field's from the input, the others as they were.
abbrev pub stored_bit : ℕ → ℕ → ℕ → ℕ → ℕ → ℕ
stored_bit bit_offset num_bits reg_val x k =
    if leb bit_offset k && ltb k (bit_offset + num_bits)
    then bit x (k - bit_offset)
    else bit reg_val k

-- `GENMASK(h, l)` inside 32 bits.
mask_u32_ok : (h l : ℕ) → l ≤ h → h < 32 → mask_u32 h l ≡ ok (2 ^ (h + 1) - 2 ^ l)
unfolding mask_u32
mask_u32_ok h l p q =
    let bound : 2 ^ (h + 1) ≤ 2 ^ 32 = pow_le (h + 1) 32 (omega arith) in ground (arith, pow_pos l)

-- A field of no bits asks for `GENMASK(2 ^ 32 - 1, 0)`.
pub read_field_no_bits :
    (negate : Bool) (bit_offset reg_val : ℕ) → read_field negate bit_offset 0 reg_val ≡ undefined
unfolding read_field mask_u32
read_field_no_bits negate bit_offset reg_val = refl

module _ {w bit_offset num_bits : ℕ} (f : Fits w bit_offset num_bits) where
  pub clip_mask : mask_u32 (pred_u32 num_bits) 0 ≡ ok (2 ^ num_bits - 1)
  clip_mask =
      let h : pred_u32 num_bits ≡ num_bits - 1 = omega arith in
      let e : num_bits - 1 + 1 ≡ num_bits = omega arith in
      rw (h, mask_u32_ok (num_bits - 1) 0 (omega arith) (omega arith), e)

  pub place_mask_ok : place_mask bit_offset num_bits ≡ ok ((2 ^ num_bits - 1) * 2 ^ bit_offset)
  unfolding place_mask
  place_mask_ok =
      let h : pred_u32 (u32 (bit_offset + num_bits)) ≡ bit_offset + num_bits - 1 = omega arith in
      let e : bit_offset + num_bits - 1 + 1 ≡ num_bits + bit_offset = omega arith in
      let d : 2 ^ (num_bits + bit_offset) - 2 ^ bit_offset ≡ (2 ^ num_bits - 1) * 2 ^ bit_offset =
        rw pow_add (mul_pred (2 ^ num_bits) (2 ^ bit_offset) (pow_pos num_bits)) in
      rw (h, mask_u32_ok (bit_offset + num_bits - 1) bit_offset (omega arith) (omega arith), e, d)

  pub read_field_ok :
      (negate : Bool) (reg_val : ℕ)
      → read_field negate bit_offset num_bits reg_val
        ≡ ok (field_of bit_offset num_bits (if negate then not_u32 reg_val else reg_val))
  unfolding read_field
  read_field_ok negate reg_val = ground (
    arith,
    clip_mask,
    bit_and_ones num_bits ((if negate then not_u32 reg_val else reg_val) / 2 ^ bit_offset),
  )

  pub clip_field_ok : (input : ℕ) → clip_field num_bits input ≡ ok (input % 2 ^ num_bits)
  unfolding clip_field
  clip_field_ok input = ground (arith, clip_mask, bit_and_ones num_bits input)

  pub place_bound : (x : ℕ) → x < 2 ^ num_bits → x * 2 ^ bit_offset < 2 ^ w
  place_bound x h =
      let a : (x + 1) * 2 ^ bit_offset ≤ 2 ^ num_bits * 2 ^ bit_offset = grind arith in
      omega (
        arith,
        a,
        pow_pos bit_offset,
        pow_add num_bits bit_offset,
        pow_le (num_bits + bit_offset) w (omega arith),
      )

  pub place_field_ok :
      (x : ℕ) → x < 2 ^ num_bits → place_field bit_offset x ≡ ok (x * 2 ^ bit_offset)
  unfolding place_field
  place_field_ok x h = ground (arith, place_bound x h, pow_le w 32 f.width)

  bit_mask :
      (k : ℕ)
      → bit ((2 ^ num_bits - 1) * 2 ^ bit_offset) k
        ≡ (if leb bit_offset k && ltb k (bit_offset + num_bits) then 1 else 0)
  bit_mask k =
      ground (arith, bit_shl bit_offset (2 ^ num_bits - 1) k, bit_ones num_bits (k - bit_offset))

  mask_bound : (2 ^ num_bits - 1) * 2 ^ bit_offset < 2 ^ w
  mask_bound = place_bound (2 ^ num_bits - 1) (omega (arith, pow_pos num_bits))

  pub bit-merge :
      (reg_val x k : ℕ)
      → reg_val < 2 ^ w
      → x < 2 ^ num_bits
      → bit (merge reg_val ((2 ^ num_bits - 1) * 2 ^ bit_offset) (x * 2 ^ bit_offset)) k
        ≡ stored_bit bit_offset num_bits reg_val x k
  unfolding merge
  bit-merge reg_val x k h p =
      let mask = (2 ^ num_bits - 1) * 2 ^ bit_offset in
      let small : mask < 2 ^ 32 = omega (arith, mask_bound, pow_le w 32 f.width) in
      let whole : u32 mask ≡ mask = omega arith in
      ground (
        arith,
        whole,
        bit-bit_or k (bit_and reg_val (not_u32 mask)) (x * 2 ^ bit_offset),
        bit-bit_and k reg_val (not_u32 mask),
        bit_not 32 (u32 mask) k,
        bit_mask k,
        bit_shl bit_offset x k,
        bit_lt reg_val k,
        bit_lt x (k - bit_offset),
        bit_high w reg_val k h,
        bit_high num_bits x (k - bit_offset) p,
      )

  pub merge_lt :
      (reg_val x : ℕ)
      → reg_val < 2 ^ w
      → x < 2 ^ num_bits
      → merge reg_val ((2 ^ num_bits - 1) * 2 ^ bit_offset) (x * 2 ^ bit_offset) < 2 ^ w
  unfolding merge
  merge_lt reg_val x h p = bit_or_lt w _ _ (bit_and_lt w _ _ h) (place_bound x p)

  -- What is stored into a field is what it holds afterwards.
  pub field_of-merge :
      (reg_val x : ℕ)
      → reg_val < 2 ^ w
      → x < 2 ^ num_bits
      → field_of bit_offset num_bits
          (merge reg_val ((2 ^ num_bits - 1) * 2 ^ bit_offset) (x * 2 ^ bit_offset))
        ≡ x
  field_of-merge reg_val x h p =
      let r = merge reg_val ((2 ^ num_bits - 1) * 2 ^ bit_offset) (x * 2 ^ bit_offset) in
      eq_of_bits num_bits (field_of bit_offset num_bits r) x (omega (arith, pow_pos num_bits)) p
        (λ k q. ground (
          arith,
          bit_mod num_bits (r / 2 ^ bit_offset) k,
          bit_shr bit_offset r k,
          bit-merge reg_val x (bit_offset + k) h p,
          ap (λ (t : ℕ). bit x t) (add_sub bit_offset k),
        ))

  -- The complement of a register holds the complement of the field.
  pub field_of-not_u32 :
      (reg_val : ℕ)
      → reg_val < 2 ^ w
      → field_of bit_offset num_bits (not_u32 reg_val)
        ≡ 2 ^ num_bits - 1 - field_of bit_offset num_bits reg_val
  field_of-not_u32 reg_val h =
      let held = field_of bit_offset num_bits reg_val in
      let small : reg_val < 2 ^ 32 = omega (arith, pow_le w 32 f.width) in
      let whole : u32 reg_val ≡ reg_val = omega arith in
      let pos : 0 < 2 ^ num_bits = pow_pos num_bits in
      let fits : held < 2 ^ num_bits = omega arith in
      eq_of_bits num_bits (field_of bit_offset num_bits (not_u32 reg_val)) (2 ^ num_bits - 1 - held)
        (omega arith) (omega arith)
        (λ k q. ground (
          arith,
          whole,
          bit_mod num_bits (not_u32 reg_val / 2 ^ bit_offset) k,
          bit_shr bit_offset (not_u32 reg_val) k,
          bit_not 32 (u32 reg_val) (bit_offset + k),
          bit_not num_bits held k,
          bit_mod num_bits (reg_val / 2 ^ bit_offset) k,
          bit_shr bit_offset reg_val k,
        ))

  -- What is placed into a field lies in the field's mask.
  pub place_in_mask :
      (x : ℕ)
      → x < 2 ^ num_bits
      → bit_and (x * 2 ^ bit_offset) ((2 ^ num_bits - 1) * 2 ^ bit_offset) ≡ x * 2 ^ bit_offset
  place_in_mask x p =
      let mask = (2 ^ num_bits - 1) * 2 ^ bit_offset in
      eq_of_bits w (bit_and (x * 2 ^ bit_offset) mask) (x * 2 ^ bit_offset)
        (bit_and_lt w (x * 2 ^ bit_offset) mask (place_bound x p)) (place_bound x p)
        (λ k q. ground (
          arith,
          bit-bit_and k (x * 2 ^ bit_offset) mask,
          bit_mask k,
          bit_shl bit_offset x k,
          bit_lt x (k - bit_offset),
          bit_high num_bits x (k - bit_offset) p,
        ))
