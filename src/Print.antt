-- ===== src/Print.antt =====
-- The conversions of the C library's `sprintf` that the drivers use: `%u`, `%x` and `%s`.
use Prim.Native.Char.{code}
use Prim.Native.String.{String}
use fboss_bsp_kmods.Base.{ℕ, zero, suc, ◌+◌, ◌-◌, ◌/◌, ◌%◌, Text, [], ◌∷◌, ltb, if◌then◌else◌}

-- The bytes of an ASCII literal.
abbrev pub codes : String → Text
codes String.[] = []
codes (String.◌∷◌ c s) = code c ∷ codes s

abbrev pub digit : ℕ → ℕ
digit d = if ltb d 10 then b'0' + d else b'a' + (d - 10)

-- The digits of `n` before those in `rest`; a `u32` has at most 32 of them.
pub digits_before : ℕ → ℕ → ℕ → Text → Text
digits_before base zero n rest = rest
digits_before base (suc fuel) n rest =
    let more = digits_before base fuel (n / base) (digit (n % base) ∷ rest) in
    if ltb n base then digit n ∷ rest else more

unfoldable pub print_dec : ℕ → Text
unfolding digits_before
print_dec n = digits_before 10 32 n []

unfoldable pub print_hex : ℕ → Text
unfolding digits_before
print_hex n = digits_before 16 32 n []
