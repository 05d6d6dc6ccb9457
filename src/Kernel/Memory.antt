-- ===== src/Kernel/Memory.antt =====
-- A device whose registers are a memory of `w` bits each: it meets the laws that the drivers rely
-- on, so that what is proved from them can be applied.
use fboss_bsp_kmods.Base.{ℕ, ◌%◌, ◌^◌, ◌≡◌, ◌<◌, arith, bit_and, bit_or}
use fboss_bsp_kmods.Bits.{not_u32}
use fboss_bsp_kmods.Bits.Laws.{mod_lt_pow, bit_or_lt, bit_and_lt}
use fboss_bsp_kmods.Kernel.{ok, Regmap, IsRegisterFile, update, UpdateBits, IsUpdate}
use native.Mathlib.Nat.{mod-eq_of_lt}

abbrev pub Memory : Type 0
Memory = ℕ → ℕ

abbrev pub memory : ℕ → Regmap Memory
memory w = record { read = λ a s. (ok (s a % 2 ^ w), s); write = λ a v s. (ok tt, update s a v) }

abbrev pub content : ℕ → Memory → ℕ → ℕ
content w s a = s a % 2 ^ w

pub memory-IsRegisterFile : (w : ℕ) → IsRegisterFile (memory w) w (content w)
memory-IsRegisterFile w = record {
  reg_lt = λ s a. mod_lt_pow (s a) w;
  read_ok = λ s a v t h. ground arith;
  read_reg = λ s a b. ground arith;
  write_ok = λ s a v t b small h. ground (arith, mod-eq_of_lt small);
  write_err = λ s a v t b e h. ground arith;
}

-- Every register holds `v`.
abbrev pub all_hold : ℕ → Memory
all_hold v a = v

abbrev pub memory_update : UpdateBits Memory
memory_update a mask bits s =
    (ok tt, update s a (bit_or (bit_and (s a % 2 ^ 8) (not_u32 mask)) (bit_and bits mask) % 2 ^ 8))

-- The merged byte needs no truncation.
merged-eq_of_mod :
    (v mask bits : ℕ)
    → bits < 2 ^ 8
    → bit_or (bit_and (v % 2 ^ 8) (not_u32 mask)) (bit_and bits mask) % 2 ^ 8
      ≡ bit_or (bit_and (v % 2 ^ 8) (not_u32 mask)) (bit_and bits mask)
merged-eq_of_mod v mask bits small =
    mod-eq_of_lt (bit_or_lt 8 _ _ (bit_and_lt 8 _ _ (mod_lt_pow v 8)) (bit_and_lt 8 _ _ small))

pub memory_update-IsUpdate : IsUpdate 8 memory_update (content 8)
memory_update-IsUpdate = record {
  update_ok = λ s a mask bits t b small h. ground (arith, merged-eq_of_mod (s a) mask bits small);
}
