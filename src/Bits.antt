-- ===== src/Bits.antt =====
-- The bits of a number, and the C operators `&`, `|`, `~` described by them.
-- `GENMASK` and `BIT` are the kernel's macros (linux/bits.h).
pub mod Step
pub mod Laws
pub mod Bytes
use fboss_bsp_kmods.Base.{ℕ, zero, suc, ◌+◌, ◌-◌, ◌*◌, ◌/◌, ◌%◌, ◌^◌, Bool, true, false, ltb}
use fboss_bsp_kmods.Base.{◌==◌, ◌||◌, if◌then◌else◌, Option, none, some, bit_and, bit_or, not}

-- Bit `k` of `a`, 0 or 1.
unfoldable pub bit : ℕ → ℕ → ℕ
bit a zero = a % 2
bit a (suc k) = bit (a / 2) k

abbrev pub u8 : ℕ → ℕ
u8 n = n % 2 ^ 8

abbrev pub u32 : ℕ → ℕ
u32 n = n % 2 ^ 32

-- `~x` at 32 bits.
abbrev pub not_u32 : ℕ → ℕ
not_u32 x = 2 ^ 32 - 1 - u32 x

-- `x & mask` as a C condition.
abbrev pub test_bits : ℕ → ℕ → Bool
test_bits x mask = not (bit_and x mask == 0)

-- `GENMASK(h, l)` on a 64-bit kernel: the ones from bit `l` to bit `h`. It shifts by
-- `63 - h` and by `l`, which C leaves undefined (`none`) unless `l ≤ h < 64`.
abbrev pub genmask : ℕ → ℕ → Option ℕ
genmask h l = elim (ltb 63 h || ltb h l) [ true ↦ none | false ↦ some (2 ^ (h + 1) - 2 ^ l) ]
