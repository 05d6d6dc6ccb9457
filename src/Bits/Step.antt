-- ===== src/Bits/Step.antt =====
-- One equation for the lowest digit of `&` and `|`, from the recursion that defines them.
use Prim.Native.Nat.{digits, bitwise, bit_and-bitwise, bit_or-bitwise}
use fboss_bsp_kmods.Base.{ℕ, zero, suc, ◌+◌, ◌*◌, ◌/◌, ◌%◌, ◌≤◌, ◌≡◌, refl, arith, min, max}
use fboss_bsp_kmods.Base.{bit_and, bit_or}

module _ (tail : ℕ → ℕ) (op : ℕ → ℕ → ℕ) where
  -- Any fuel from the first number on gives the same digits.
  digits_enough :
      (bound fuel fuel' a b : ℕ)
      → a ≤ bound
      → a ≤ fuel
      → a ≤ fuel'
      → digits tail op fuel a b ≡ digits tail op fuel' a b
  digits_enough bound zero zero a b h p q = refl
  digits_enough bound zero (suc g) zero b h p q = refl
  digits_enough bound (suc f) zero zero b h p q = refl
  digits_enough bound (suc f) (suc g) zero b h p q = refl
  digits_enough bound zero (suc g) (suc a) b h p q = absurd (omega arith)
  digits_enough bound (suc f) zero (suc a) b h p q = absurd (omega arith)
  digits_enough zero (suc f) (suc g) (suc a) b h p q = absurd (omega arith)
  digits_enough (suc bound) (suc f) (suc g) (suc a) b h p q =
      rw (digits_enough bound f g (suc a / 2) (b / 2) (omega arith) (omega arith) (omega arith))

  lowest_digit :
      (a b : ℕ)
      → bitwise tail op (suc a) b ≡ bitwise tail op (suc a / 2) (b / 2) * 2 + op (suc a % 2) (b % 2)
  lowest_digit a b =
      rw (
        digits_enough a (suc a / 2) a (suc a / 2) (b / 2) (omega arith) (omega arith) (omega arith))

-- The lowest bit of `x & y` is the smaller of the two lowest bits, of `x | y` the larger.
pub bit_and_step : (x y : ℕ) → bit_and x y ≡ bit_and (x / 2) (y / 2) * 2 + min (x % 2) (y % 2)
bit_and_step (suc x) y = simp bit_and-bitwise (lowest_digit (λ rest. 0) min x y)
bit_and_step zero y = simp bit_and-bitwise (omega arith)

pub zero-bit_and : (y : ℕ) → bit_and 0 y ≡ 0
zero-bit_and y = bit_and-bitwise 0 y

pub bit_or_step : (x y : ℕ) → bit_or x y ≡ bit_or (x / 2) (y / 2) * 2 + max (x % 2) (y % 2)
bit_or_step (suc x) y = simp bit_or-bitwise (lowest_digit (λ rest. rest) max x y)
bit_or_step zero y = simp bit_or-bitwise (omega arith)

pub zero-bit_or : (y : ℕ) → bit_or 0 y ≡ y
zero-bit_or y = bit_or-bitwise 0 y

-- `0` on the right, by recursion on a bound of the number.
right_zero : (bound x : ℕ) → x ≤ bound → (bit_and x 0 ≡ 0) × (bit_or x 0 ≡ x)
right_zero bound zero small = (zero-bit_and 0, zero-bit_or 0)
right_zero zero (suc x) small = absurd (omega arith)
right_zero (suc bound) (suc x) small =
    let half = right_zero bound (suc x / 2) (omega arith) in
    (omega (arith, half, bit_and_step (suc x) 0), omega (arith, half, bit_or_step (suc x) 0))

pub bit_and-zero : (x : ℕ) → bit_and x 0 ≡ 0
bit_and-zero x = (right_zero x x (omega arith)).0

pub bit_or-zero : (x : ℕ) → bit_or x 0 ≡ x
bit_or-zero x = (right_zero x x (omega arith)).1
