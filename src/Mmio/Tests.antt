-- ===== src/Mmio/Tests.antt =====
-- The bulk I/O of kmods/fboss_iob_mmio.h on concrete bytes.
use fboss_bsp_kmods.Base.{◌≡◌, arith, refl, [], ◌∷◌}
use fboss_bsp_kmods.Mmio.{fbiob_bulk_write, fbiob_bulk_read}
use fboss_bsp_kmods.Mmio.Window.{fbiob_bulk_read-fbiob_bulk_write}
use fboss_bsp_kmods.Mmio.Registers.{words, Words, word_at, words-IsWindow, words-IsReadable}

abbrev blank : Words
blank a = 0

-- Five bytes are a word and a rest, which is padded.
five_bytes :
    (fbiob_bulk_write words 0x80 (1 ∷ 2 ∷ 3 ∷ 4 ∷ 5 ∷ []) blank 0x80 ≡ 0x04030201)
    × (fbiob_bulk_write words 0x80 (1 ∷ 2 ∷ 3 ∷ 4 ∷ 5 ∷ []) blank 0x84 ≡ 5)
unfolding fbiob_bulk_write
five_bytes = (refl, refl)

fbiob_bulk_read-fbiob_bulk_write_example :
    (fbiob_bulk_read words 0x80 5 (fbiob_bulk_write words 0x80 (1 ∷ 2 ∷ 3 ∷ 4 ∷ 5 ∷ []) blank)).0
    ≡ 1 ∷ 2 ∷ 3 ∷ 4 ∷ 5 ∷ []
fbiob_bulk_read-fbiob_bulk_write_example =
    fbiob_bulk_read-fbiob_bulk_write words 0 0x100 (λ s. Unit {0}) word_at (words-IsWindow 0x100)
      words-IsReadable 0x80 (1 ∷ 2 ∷ 3 ∷ 4 ∷ 5 ∷ []) blank (omega arith) (omega arith)
      (omega arith, (omega arith, (omega arith, (omega arith, (omega arith, tt))))) tt
