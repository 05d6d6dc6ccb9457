-- ===== src/Mmio/Registers.antt =====
-- A concrete block of registers that keeps every word, and meets the laws of a window.
use fboss_bsp_kmods.Base.{ℕ, refl}
use fboss_bsp_kmods.Kernel.{update}
use fboss_bsp_kmods.Mmio.{Mmio}
use fboss_bsp_kmods.Mmio.Window.{IsWindow, IsReadable}

abbrev pub Words : Type 0
Words = ℕ → ℕ

abbrev pub words : Mmio Words
words = record { readl = λ a s. (s a, s); writel = λ a v s. update s a v }

abbrev pub word_at : Words → ℕ → ℕ
word_at s a = s a

pub words-IsWindow : (high : ℕ) → IsWindow words 0 high (λ s. Unit {0}) word_at
words-IsWindow high = record { write_open = λ s a v p q o. tt; write_held = λ s a v b p q o. refl }

pub words-IsReadable : IsReadable words word_at
words-IsReadable = record { read_held = λ s a. refl; read_kept = λ s a b. refl }
