-- ===== src/Mmio/Kept.antt =====
-- A single register of a block that keeps what is written to it, whatever the others do.
use fboss_bsp_kmods.Base.{ℕ, ◌≡◌, ◌≢◌, arith, refl}
use fboss_bsp_kmods.Mmio.{Mmio}
use fboss_bsp_kmods.Mmio.Registers.{words, word_at}

-- The register at `a` holds `held`, and only a write to it changes that.
pub record IsKept {S : Type 0} (io : Mmio S) (a : ℕ) (held : S → ℕ) : Type 0 where
  pub read_own : (s : S) → (io.readl a s).0 ≡ held s
  pub read_kept : (s : S) (b : ℕ) → held (io.readl b s).1 ≡ held s
  pub write_own : (s : S) (v : ℕ) → held (io.writel a v s) ≡ v
  pub write_other : (s : S) (b v : ℕ) → b ≢ a → held (io.writel b v s) ≡ held s

pub words-IsKept : (a : ℕ) → IsKept words a (λ s. word_at s a)
words-IsKept a = record {
  read_own = λ s. refl;
  read_kept = λ s b. refl;
  write_own = λ s v. ground arith;
  write_other = λ s b v ne. ground arith;
}
