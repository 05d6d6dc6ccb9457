-- ===== src/Mmio.antt =====
-- kmods/fboss_iob_mmio.h: bulk I/O on the registers of an FPGA, in words of four bytes.
pub mod Window
pub mod Registers
pub mod Kept
mod Tests
use fboss_bsp_kmods.Base.{ℕ, zero, suc, ◌+◌, ◌*◌, ◌/◌, ◌%◌, ◌^◌, List, [], ◌∷◌, ◌++◌}

-- `readl` and `writel`, which never fail, on the registers of one block.
pub record Mmio (S : Type 0) : Type 0 where
  pub readl : ℕ → S → ℕ × S
  pub writel : ℕ → ℕ → S → S

-- Four bytes as a little-endian word, and back.
abbrev pub word : (b0 b1 b2 b3 : ℕ) → ℕ
word b0 b1 b2 b3 = b0 + 256 * b1 + 65536 * b2 + 16777216 * b3

-- The first bytes of a word in memory.
abbrev pub bytes : ℕ → ℕ → List ℕ
bytes zero v = []
bytes (suc n) v = v % 256 ∷ bytes n (v / 256)

module _ {S : Type 0} (io : Mmio S) where
  -- `fbiob_bulk_write` of all the bytes of a buffer.
  unfoldable pub fbiob_bulk_write : ℕ → List ℕ → S → S
  fbiob_bulk_write mmio [] s = s
  fbiob_bulk_write mmio (b0 ∷ []) s = io.writel mmio (word b0 0 0 0) s
  fbiob_bulk_write mmio (b0 ∷ b1 ∷ []) s = io.writel mmio (word b0 b1 0 0) s
  fbiob_bulk_write mmio (b0 ∷ b1 ∷ b2 ∷ []) s = io.writel mmio (word b0 b1 b2 0) s
  fbiob_bulk_write mmio (b0 ∷ b1 ∷ b2 ∷ b3 ∷ rest) s =
      fbiob_bulk_write (mmio + 4) rest (io.writel mmio (word b0 b1 b2 b3) s)

  -- `fbiob_bulk_read` of `size` bytes.
  unfoldable pub fbiob_bulk_read : ℕ → ℕ → S → List ℕ × S
  fbiob_bulk_read mmio zero s = ([], s)
  fbiob_bulk_read mmio (suc zero) s = let (val, s') = io.readl mmio s in (bytes 1 val, s')
  fbiob_bulk_read mmio (suc (suc zero)) s = let (val, s') = io.readl mmio s in (bytes 2 val, s')
  fbiob_bulk_read mmio (suc (suc (suc zero))) s =
      let (val, s') = io.readl mmio s in (bytes 3 val, s')
  fbiob_bulk_read mmio (suc (suc (suc (suc size)))) s =
      let (val, s') = io.readl mmio s in
      let (rest, s'') = fbiob_bulk_read (mmio + 4) size s' in (bytes 4 val ++ rest, s'')
