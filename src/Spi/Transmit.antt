-- ===== src/Spi/Transmit.antt =====
-- What a transmission puts on the wire: the buffer, in order.
use mathlib.Core.List.{append_assoc, append-nil}
use fboss_bsp_kmods.Base.{
  ℕ, zero, suc, ◌+◌, ◌-◌, ◌^◌, ◌≤◌, ◌<◌, ◌≡◌, arith, refl, ap, ap₂, sym, ◌∙◌, List, [], ◌∷◌, ◌++◌,
}
use fboss_bsp_kmods.Base.{none, length, take, drop, Option-cases, inl, inr, min}
use fboss_bsp_kmods.Bits.{bit}
use fboss_bsp_kmods.Mmio.{Mmio, word, fbiob_bulk_write}
use fboss_bsp_kmods.Mmio.Window.{
  IsWindow, IsBytes, held_bytes, held_bytes_cong, held_bytes-fbiob_bulk_write,
}
use fboss_bsp_kmods.Spi.{
  SpiBus, reg_desc_cmd, reg_desc_sts, command_word, spi_csr_read, spi_csr_write,
}
use fboss_bsp_kmods.Spi.{
  poll_xfer, wait_till_xfer_done, fbiob_spi_send_cmd, clear_status, tx_chunk, tx_loop,
}
use fboss_bsp_kmods.Spi.{fbiob_spi_xfer_tx}
use fboss_bsp_kmods.Spi.Command.{data_len, command_word_bits}

-- The controller as a sender: the MOSI buffer keeps words, and a command with the bit VALID puts as
-- many bytes of the buffer on the wire as the command says. Nothing else puts bytes there.
pub record IsSender {S : Type 0} (io : Mmio S) (bus : SpiBus) (held : S → ℕ → ℕ) (sent : S → List ℕ)
    : Type 0 where
  pub mosi : IsWindow io bus.mmio_mosi (bus.mmio_mosi + 512) (λ s. Unit {0}) held
  pub mosi_sent :
      (s : S) (a v : ℕ)
      → bus.mmio_mosi ≤ a
      → a < bus.mmio_mosi + 512
      → sent (io.writel a v s) ≡ sent s
  pub read_held : (s : S) (a b : ℕ) → held (io.readl a s).1 b ≡ held s b
  pub read_sent : (s : S) (a : ℕ) → sent (io.readl a s).1 ≡ sent s
  pub read_lt : (s : S) (a : ℕ) → (io.readl a s).0 < 2 ^ 32
  pub status_sent : (s : S) (v : ℕ) → sent (io.writel (bus.mmio_csr + reg_desc_sts) v s) ≡ sent s
  pub command_sent :
      (s : S) (v : ℕ)
      → bit v 31 ≡ 1
      → sent (io.writel (bus.mmio_csr + reg_desc_cmd) v s)
        ≡ sent s ++ held_bytes (held s) bus.mmio_mosi (data_len v)

take-drop {ℓ} : {A : Type ℓ} (n : ℕ) (xs : List A) → take n xs ++ drop n xs ≡ xs
take-drop zero xs = refl
take-drop (suc n) [] = refl
take-drop (suc n) (x ∷ xs) = ap (λ l. x ∷ l) (take-drop n xs)

length-take {ℓ} : {A : Type ℓ} (n : ℕ) (xs : List A) → length (take n xs) ≡ min n (length xs)
length-take zero xs = omega arith
length-take (suc n) [] = omega arith
length-take (suc n) (x ∷ xs) = omega (arith, length-take n xs)

length-drop {ℓ} : {A : Type ℓ} (n : ℕ) (xs : List A) → length (drop n xs) ≡ length xs - n
length-drop zero xs = omega arith
length-drop (suc n) [] = omega arith
length-drop (suc n) (x ∷ xs) = omega (arith, length-drop n xs)

take-IsBytes : (n : ℕ) (xs : List ℕ) → IsBytes xs → IsBytes (take n xs)
take-IsBytes zero xs h = tt
take-IsBytes (suc n) [] h = tt
take-IsBytes (suc n) (x ∷ xs) h = (h.0, take-IsBytes n xs h.1)

drop-IsBytes : (n : ℕ) (xs : List ℕ) → IsBytes xs → IsBytes (drop n xs)
drop-IsBytes zero xs h = h
drop-IsBytes (suc n) [] h = tt
drop-IsBytes (suc n) (x ∷ xs) h = drop-IsBytes n xs h.1

module _ {S : Type 0} {io : Mmio S} {bus : SpiBus} {held : S → ℕ → ℕ} {sent : S → List ℕ}
    (sender : IsSender io bus held sent) where
  load_sent :
      (a : ℕ) (bs : List ℕ) (s : S)
      → bus.mmio_mosi ≤ a
      → a + length bs ≤ bus.mmio_mosi + 512
      → sent (fbiob_bulk_write io a bs s) ≡ sent s
  unfolding fbiob_bulk_write
  load_sent a [] s p q = refl
  load_sent a (b0 ∷ []) s p q = sender.mosi_sent s a _ p (omega arith)
  load_sent a (b0 ∷ b1 ∷ []) s p q = sender.mosi_sent s a _ p (omega arith)
  load_sent a (b0 ∷ b1 ∷ b2 ∷ []) s p q = sender.mosi_sent s a _ p (omega arith)
  load_sent a (b0 ∷ b1 ∷ b2 ∷ b3 ∷ rest) s p q =
      load_sent (a + 4) rest _ (omega arith) (omega arith)
      ∙ sender.mosi_sent s a (word b0 b1 b2 b3) p (omega arith)

  poll_sent : (fuel : ℕ) (s : S) → sent (poll_xfer io bus fuel s).1 ≡ sent s
  unfolding poll_xfer
  poll_sent zero s = refl
  poll_sent (suc fuel) s =
      let s' = (spi_csr_read io bus reg_desc_sts s).1 in
      ground (arith, sender.read_sent s (bus.mmio_csr + reg_desc_sts), poll_sent fuel s')

  -- One round sends its chunk, whatever the wait then returns.
  chunk_sent :
      (chunk : List ℕ) (s : S)
      → 0 < length chunk
      → length chunk ≤ 512
      → IsBytes chunk
      → sent (tx_chunk io bus chunk s).1 ≡ sent s ++ chunk
  unfolding tx_chunk wait_till_xfer_done fbiob_spi_send_cmd
  chunk_sent chunk s h p bytes_ok =
      let n = length chunk in
      let ready = clear_status io bus s in
      let loaded = fbiob_bulk_write io bus.mmio_mosi chunk ready in
      let (val, s') = spi_csr_read io bus reg_desc_cmd loaded in
      let (len, valid) =
        command_word_bits n val 31 h p (sender.read_lt loaded (bus.mmio_csr + reg_desc_cmd))
          (omega arith) in
      let started = spi_csr_write io bus reg_desc_cmd (command_word n val) s' in
      let held_chunk : held_bytes (held s') bus.mmio_mosi n ≡ chunk =
        held_bytes_cong (held s') (held loaded) bus.mmio_mosi n
          (λ b. sender.read_held loaded (bus.mmio_csr + reg_desc_cmd) b)
        ∙ held_bytes-fbiob_bulk_write sender.mosi bus.mmio_mosi chunk ready (omega arith)
            (omega arith) bytes_ok tt in
      let before : sent s' ≡ sent s =
        sender.read_sent loaded (bus.mmio_csr + reg_desc_cmd)
        ∙ load_sent bus.mmio_mosi chunk ready (omega arith) (omega arith)
        ∙ sender.status_sent s 3 in
      poll_sent 31 started
      ∙ sender.command_sent s' (command_word n val) valid
      ∙ ap₂ (λ (x y : List ℕ). x ++ y) before
          (ap (held_bytes (held s') bus.mmio_mosi) len ∙ held_chunk)

  -- What the loop has sent when it ends: a beginning of the buffer, and all of it on success.
  loop_sent :
      (fuel : ℕ) (buf : List ℕ) (s : S)
      → length buf ≤ fuel
      → IsBytes buf
      → let (ret, s') = tx_loop io bus fuel buf s in
        (front : List ℕ) × (back : List ℕ) × (front ++ back ≡ buf)
        × (sent s' ≡ sent s ++ front)
        × (ret ≡ none → back ≡ [])
  unfolding tx_loop
  loop_sent fuel [] s h b = ([], [], refl, sym (append-nil (sent s)), λ e. refl)
  loop_sent zero (x ∷ buf) s h b = absurd (omega arith)
  loop_sent (suc fuel) (x ∷ buf) s h b =
      let chunk = take 512 (x ∷ buf) in
      let left = drop 512 (x ∷ buf) in
      let size = length-take 512 (x ∷ buf) in
      let s' = (tx_chunk io bus chunk s).1 in
      let round = chunk_sent chunk s (omega arith) (omega arith) (take-IsBytes 512 (x ∷ buf) b) in
      let (front, back, split, more, whole) =
        loop_sent fuel left s' (omega (arith, length-drop 512 (x ∷ buf)))
          (drop-IsBytes 512 (x ∷ buf) b) in
      elim (Option-cases (tx_chunk io bus chunk s).0) [
        | inl passed ↦
            let all_more : sent (tx_loop io bus fuel left s').1 ≡ sent s ++ (chunk ++ front) =
              more ∙ ap (λ l. l ++ front) round ∙ append_assoc (sent s) chunk front in
            (
              chunk ++ front,
              back,
              append_assoc chunk front back ∙ ap (λ l. chunk ++ l) split ∙ take-drop 512 (x ∷ buf),
              ground (arith, passed, all_more),
              λ q. whole (ground (arith, passed, q)),
            )
        | inr (e, stopped) ↦ (
          chunk,
          left,
          take-drop 512 (x ∷ buf),
          ground (arith, stopped, round),
          λ q. ground (arith, stopped, q),
        )
      ]

  -- On a controller that sends what is in its transmit buffer when a command says so, a transmit
  -- that succeeds puts exactly the bytes of the buffer, at most 2^31 - 1 of them, on the wire, in
  -- order and with nothing lost or repeated between the chunks of 512.
  pub fbiob_spi_xfer_tx_sends :
      (txbuf : List ℕ) (s : S)
      → length txbuf < 2 ^ 31
      → IsBytes txbuf
      → (fbiob_spi_xfer_tx io bus txbuf s).0 ≡ none
      → sent (fbiob_spi_xfer_tx io bus txbuf s).1 ≡ sent s ++ txbuf
  unfolding fbiob_spi_xfer_tx
  fbiob_spi_xfer_tx_sends txbuf s h b e =
      let (front, back, split, more, whole) = loop_sent (length txbuf) txbuf s (omega arith) b in
      let finished : back ≡ [] = whole (ground arith) in
      let everything : front ≡ txbuf =
        sym (append-nil front) ∙ ap (λ l. front ++ l) (sym finished) ∙ split in
      ground (arith, more, everything)

  -- A transmit, whether it succeeds or not, puts a first part of the buffer on the wire.
  pub fbiob_spi_xfer_tx_err :
      (txbuf : List ℕ) (s : S)
      → length txbuf < 2 ^ 31
      → IsBytes txbuf
      → (front : List ℕ) × (back : List ℕ) × (front ++ back ≡ txbuf)
        × (sent (fbiob_spi_xfer_tx io bus txbuf s).1 ≡ sent s ++ front)
  unfolding fbiob_spi_xfer_tx
  fbiob_spi_xfer_tx_err txbuf s h b =
      let (front, back, split, more, whole) = loop_sent (length txbuf) txbuf s (omega arith) b in
      (front, back, split, ground (arith, more))
