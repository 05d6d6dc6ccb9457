-- ===== src/Bits/Laws.antt =====
-- The bits of each operator's result, and equality of numbers by their bits.
use native.Mathlib.Nat.{pow-suc, one-le-pow, div-div-eq-div-mul, div-add-mod'}
use native.Mathlib.Nat.{mod-eq_of_lt, add-mul-mod_self_right}
use fboss_bsp_kmods.Base.{ℕ, zero, suc, ◌+◌, ◌-◌, ◌*◌, ◌/◌, ◌%◌, ◌^◌, ◌≤◌, ◌<◌, ◌≡◌, refl, arith}
use fboss_bsp_kmods.Base.{min, max, bit_and, bit_or, ltb, if◌then◌else◌, ap, ◌∙◌}
use fboss_bsp_kmods.Bits.{bit}
use fboss_bsp_kmods.Bits.Step.{bit_and_step, bit_or_step, zero-bit_and, bit_and-zero}

-- The digits of `a` modulo twice `m`.
mod_double : (a m : ℕ) → 0 < m → a % (m * 2) ≡ a / 2 % m * 2 + a % 2
mod_double a m h =
    let q = a / 2 / m in
    let r = a / 2 % m in
    let split : a ≡ (r * 2 + a % 2) + q * (m * 2) = omega (arith, div-add-mod' (a / 2) m) in
    let small : r * 2 + a % 2 < m * 2 = omega arith in
    ap (λ (t : ℕ). t % (m * 2)) split
    ∙ add-mul-mod_self_right (r * 2 + a % 2) q (m * 2)
    ∙ mod-eq_of_lt small

pub bit_lt : (a k : ℕ) → bit a k < 2
unfolding bit
bit_lt a zero = omega arith
bit_lt a (suc k) = bit_lt (a / 2) k

pub bit-bit_and : (k a b : ℕ) → bit (bit_and a b) k ≡ min (bit a k) (bit b k)
unfolding bit
bit-bit_and zero a b = omega (arith, bit_and_step a b)
bit-bit_and (suc k) a b =
    let half : bit_and a b / 2 ≡ bit_and (a / 2) (b / 2) = omega (arith, bit_and_step a b) in
    rw half (bit-bit_and k (a / 2) (b / 2))

pub bit-bit_or : (k a b : ℕ) → bit (bit_or a b) k ≡ max (bit a k) (bit b k)
unfolding bit
bit-bit_or zero a b = omega (arith, bit_or_step a b)
bit-bit_or (suc k) a b =
    let half : bit_or a b / 2 ≡ bit_or (a / 2) (b / 2) = omega (arith, bit_or_step a b) in
    rw half (bit-bit_or k (a / 2) (b / 2))

pub bit_zero : (k : ℕ) → bit 0 k ≡ 0
unfolding bit
bit_zero zero = refl
bit_zero (suc k) = bit_zero k

-- `a << j`.
pub bit_shl : (j a k : ℕ) → bit (a * 2 ^ j) k ≡ (if ltb k j then 0 else bit a (k - j))
unfolding bit
bit_shl zero a k =
    let e : a * 2 ^ 0 ≡ a = omega arith in let f : k - 0 ≡ k = omega arith in ground (arith, e, f)
bit_shl (suc j) a zero = ground (arith, ap (λ (t : ℕ). a * t) (pow-suc 2 j))
bit_shl (suc j) a (suc k) =
    let e : a * 2 ^ suc j / 2 ≡ a * 2 ^ j = omega (arith, ap (λ (t : ℕ). a * t) (pow-suc 2 j)) in
    rw e (ground (arith, bit_shl j a k))

-- `a >> j`.
pub bit_shr : (j a k : ℕ) → bit (a / 2 ^ j) k ≡ bit a (j + k)
unfolding bit
bit_shr zero a k =
    let e : a / 2 ^ 0 ≡ a = omega arith in let f : 0 + k ≡ k = omega arith in ground (arith, e, f)
bit_shr (suc j) a k =
    let e : a / 2 ^ suc j ≡ a / 2 / 2 ^ j =
      ground (arith, div-div-eq-div-mul a 2 (2 ^ j), pow-suc 2 j) in
    let f : suc j + k ≡ suc (j + k) = omega arith in rw (e, f) (bit_shr j (a / 2) k)

-- The ones below bit `j`.
pub bit_ones : (j k : ℕ) → bit (2 ^ j - 1) k ≡ (if ltb k j then 1 else 0)
unfolding bit
bit_ones zero k = ground (arith, bit_zero k)
bit_ones (suc j) zero = ground (arith, pow-suc 2 j, one-le-pow j 2)
bit_ones (suc j) (suc k) =
    let e : (2 ^ suc j - 1) / 2 ≡ 2 ^ j - 1 = omega (arith, pow-suc 2 j, one-le-pow j 2) in
    rw e (ground (arith, bit_ones j k))

-- `~a` at `w` bits.
pub bit_not : (w a k : ℕ) → a < 2 ^ w → k < w → bit (2 ^ w - 1 - a) k ≡ 1 - bit a k
unfolding bit
bit_not zero a k h p = absurd (omega arith)
bit_not (suc w) a zero h p = omega (arith, pow-suc 2 w)
bit_not (suc w) a (suc k) h p =
    let e : (2 ^ suc w - 1 - a) / 2 ≡ 2 ^ w - 1 - a / 2 = omega (arith, pow-suc 2 w) in
    rw e (bit_not w (a / 2) k (omega (arith, pow-suc 2 w)) (omega arith))

-- A number below `2 ^ w` has no bit from `w` on.
pub bit_high : (w a k : ℕ) → a < 2 ^ w → w ≤ k → bit a k ≡ 0
unfolding bit
bit_high zero a k h p = let e : a ≡ 0 = omega arith in rw e (bit_zero k)
bit_high (suc w) a zero h p = absurd (omega arith)
bit_high (suc w) a (suc k) h p = bit_high w (a / 2) k (omega (arith, pow-suc 2 w)) (omega arith)

-- Numbers of `w` bits with the same bits are equal.
pub eq_of_bits : (w a b : ℕ) → a < 2 ^ w → b < 2 ^ w → ((k : ℕ) → k < w → bit a k ≡ bit b k) → a ≡ b
unfolding bit
eq_of_bits zero a b p q h = omega arith
eq_of_bits (suc w) a b p q h = omega (
  arith,
  pow-suc 2 w,
  h 0 (omega arith),
  eq_of_bits w (a / 2) (b / 2) (omega (arith, pow-suc 2 w)) (omega (arith, pow-suc 2 w))
      (λ k l. h (suc k) (omega arith)),
)

-- `&` and `|` stay below a power of two that bounds their arguments.
pub bit_or_lt : (w a b : ℕ) → a < 2 ^ w → b < 2 ^ w → bit_or a b < 2 ^ w
bit_or_lt zero a b p q =
    let e : a ≡ 0 = omega arith in let f : b ≡ 0 = omega arith in rw (e, f) (omega arith)
bit_or_lt (suc w) a b p q = omega (
  arith,
  pow-suc 2 w,
  bit_or_step a b,
  bit_or_lt w (a / 2) (b / 2) (omega (arith, pow-suc 2 w)) (omega (arith, pow-suc 2 w)),
)

pub bit_and_lt : (w a b : ℕ) → a < 2 ^ w → bit_and a b < 2 ^ w
bit_and_lt zero a b p = let e : a ≡ 0 = omega arith in rw (e, zero-bit_and) (omega arith)
bit_and_lt (suc w) a b p = omega (
  arith,
  pow-suc 2 w,
  bit_and_step a b,
  bit_and_lt w (a / 2) (b / 2) (omega (arith, pow-suc 2 w)),
)

bit_and_lt_right : (w a : ℕ) → bit_and a (2 ^ w - 1) < 2 ^ w
bit_and_lt_right zero a = omega (arith, bit_and-zero a)
bit_and_lt_right (suc w) a =
    let e : (2 ^ suc w - 1) / 2 ≡ 2 ^ w - 1 = omega (arith, pow-suc 2 w, one-le-pow w 2) in
    omega (
      arith,
      pow-suc 2 w,
      bit_and_step a (2 ^ suc w - 1),
      bit_and_lt_right w (a / 2),
      ap (λ (t : ℕ). bit_and (a / 2) t) e,
    )

-- `a % 2 ^ w` keeps the bits below `w`.
pub bit_mod : (w a k : ℕ) → bit (a % 2 ^ w) k ≡ (if ltb k w then bit a k else 0)
unfolding bit
bit_mod zero a k = let e : a % 2 ^ 0 ≡ 0 = omega arith in rw (e, bit_zero) (ground arith)
bit_mod (suc w) a zero = ground (arith, mod_double a (2 ^ w), pow-suc 2 w, one-le-pow w 2)
bit_mod (suc w) a (suc k) =
    let e : a % 2 ^ suc w / 2 ≡ a / 2 % 2 ^ w =
      ground (arith, mod_double a (2 ^ w), pow-suc 2 w, one-le-pow w 2) in
    rw e (ground (arith, bit_mod w (a / 2) k))

-- `a & (2 ^ w - 1)` is the remainder by `2 ^ w`, for `a` of any size.
pub bit_and_ones : (w a : ℕ) → bit_and a (2 ^ w - 1) ≡ a % 2 ^ w
bit_and_ones w a =
    eq_of_bits w (bit_and a (2 ^ w - 1)) (a % 2 ^ w) (bit_and_lt_right w a)
      (ground (arith, one-le-pow w 2))
      (λ k h. ground (arith, bit-bit_and k a (2 ^ w - 1), bit_ones w k, bit_mod w a k, bit_lt a k))

pub pow_add : (a b : ℕ) → 2 ^ (a + b) ≡ 2 ^ a * 2 ^ b
pow_add a zero = let e : a + 0 ≡ a = omega arith in rw e (omega arith)
pow_add a (suc b) =
    let e : a + suc b ≡ suc (a + b) = omega arith in
    rw (e, pow-suc, pow-suc) (grind (arith, pow_add a b))

pub pow_pos : (a : ℕ) → 0 < 2 ^ a
pow_pos a = omega (arith, one-le-pow a 2)

pub mod_lt_pow : (a w : ℕ) → a % 2 ^ w < 2 ^ w
mod_lt_pow a w = omega (arith, pow_pos w)

-- A mask of one bit leaves that bit where it is.
pub single_bit : (j a : ℕ) → bit_and a (2 ^ j) ≡ bit a j * 2 ^ j
unfolding bit
single_bit zero a = omega (arith, bit_and_ones 1 a)
single_bit (suc j) a =
    let e : 2 ^ suc j / 2 ≡ 2 ^ j = omega (arith, pow-suc 2 j) in
    let low : min (a % 2) (2 ^ suc j % 2) ≡ 0 = omega (arith, pow-suc 2 j) in
    let high : bit_and (a / 2) (2 ^ suc j / 2) ≡ bit (a / 2) j * 2 ^ j =
      rw e (single_bit j (a / 2)) in
    let double : bit (a / 2) j * 2 ^ suc j ≡ bit (a / 2) j * 2 ^ j * 2 = rw pow-suc (grind arith) in
    omega (arith, bit_and_step a (2 ^ suc j), low, high, double)
