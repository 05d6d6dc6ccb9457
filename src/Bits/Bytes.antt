-- ===== src/Bits/Bytes.antt =====
-- `&` and `|` of a byte with the masks of single bits, and `|` of disjoint fields.
use native.Mathlib.Nat.{pow-suc}
use fboss_bsp_kmods.Base.{ℕ, zero, suc, ◌+◌, ◌*◌, ◌/◌, ◌%◌, ◌^◌, ◌<◌, ◌≡◌, refl, arith}
use fboss_bsp_kmods.Base.{Bool, true, ◌&&◌, ◌==◌, ==_iff, bit_and, bit_or, ap}
use fboss_bsp_kmods.Bits.Step.{bit_or_step, bit_or-zero}

-- A test of every number below a bound.
unfoldable pub every_below : ℕ → (ℕ → Bool) → Bool
every_below zero p = true
every_below (suc n) p = p n && every_below n p

pub every_below_sound : (n : ℕ) (p : ℕ → Bool) (x : ℕ) → every_below n p ≡ true → x < n → p x ≡ true
unfolding every_below
every_below_sound zero p x h lt = absurd (omega arith)
every_below_sound (suc n) p x h lt = ground (arith, every_below_sound n p x)

top_table : every_below 256 (λ x. bit_and x 0x80 == x / 128 * 128) ≡ true
unfolding every_below
top_table = refl

pub bit_and_top : (x : ℕ) → x < 256 → bit_and x 0x80 ≡ x / 128 * 128
bit_and_top x h = (==_iff _ _).0 (every_below_sound 256 _ x top_table h)

set_top_table : every_below 256 (λ x. bit_or 0x80 x == 128 + x % 128) ≡ true
unfolding every_below
set_top_table = refl

pub bit_or_top : (x : ℕ) → x < 256 → bit_or 0x80 x ≡ 128 + x % 128
bit_or_top x h = (==_iff _ _).0 (every_below_sound 256 _ x set_top_table h)

-- A field over a number that fits below it.
pub bit_or_add : (k a r : ℕ) → r < 2 ^ k → bit_or (a * 2 ^ k) r ≡ a * 2 ^ k + r
bit_or_add zero a r h =
    let e : r ≡ 0 = omega arith in
    let f : a * 2 ^ 0 ≡ a = omega arith in rw (e, f, bit_or-zero) (omega arith)
bit_or_add (suc k) a r h =
    let double : a * 2 ^ suc k ≡ a * 2 ^ k * 2 =
      omega (arith, ap (λ (t : ℕ). a * t) (pow-suc 2 k)) in
    let half : a * 2 ^ suc k / 2 ≡ a * 2 ^ k = omega arith in
    omega (
      arith,
      double,
      bit_or_step (a * 2 ^ suc k) r,
      bit_or_add k a (r / 2) (omega (arith, pow-suc 2 k)),
      ap (λ (t : ℕ). bit_or t (r / 2)) half,
    )
