-- ===== src/Spi/Receive.antt =====
-- What a reception puts into the buffer: the next bytes of the device, in order.
use fboss_bsp_kmods.Base.{
  ℕ, zero, suc, ◌+◌, ◌-◌, ◌^◌, ◌≤◌, ◌<◌, ◌≡◌, arith, refl, ap, ap₂, sym, ◌∙◌, List, [], ◌∷◌, ◌++◌,
}
use fboss_bsp_kmods.Base.{◌≢◌, none, Option-cases, Bool-cases, if◌then◌else◌, inl, inr, min}
use fboss_bsp_kmods.Bits.{bit, test_bits}
use fboss_bsp_kmods.Kernel.{ok, undefined, Ret-cases}
use fboss_bsp_kmods.Mmio.{Mmio, bytes, fbiob_bulk_read}
use fboss_bsp_kmods.Mmio.Window.{held_bytes, held_bytes_cong}
use fboss_bsp_kmods.Spi.{
  SpiBus, reg_desc_cmd, reg_desc_sts, command_word, spi_csr_read, spi_csr_write,
}
use fboss_bsp_kmods.Spi.{poll_xfer, wait_till_xfer_done, fbiob_spi_send_cmd, clear_status}
use fboss_bsp_kmods.Spi.{fbiob_spi_xfer_single_rx, rx_loop, fbiob_spi_xfer_rx}
use fboss_bsp_kmods.Spi.Command.{data_len, command_word_bits}

-- The bytes of a device from position `p` on.
abbrev pub next_bytes : (ℕ → ℕ) → ℕ → ℕ → List ℕ
next_bytes device p zero = []
next_bytes device p (suc n) = device p ∷ next_bytes device (p + 1) n

next_bytes_append :
    (device : ℕ → ℕ) (p m n : ℕ)
    → next_bytes device p m ++ next_bytes device (p + m) n ≡ next_bytes device p (m + n)
next_bytes_append device p zero n =
    let e : p + 0 ≡ p = omega arith in let f : 0 + n ≡ n = omega arith in rw (e, f) refl
next_bytes_append device p (suc m) n =
    let e : p + suc m ≡ p + 1 + m = omega arith in
    let f : suc m + n ≡ suc (m + n) = omega arith in
    rw (e, f) (ap (λ l. device p ∷ l) (next_bytes_append device (p + 1) m n))

-- Where the controller is between two commands. In `other` nothing is known of its buffer, and
-- in `running` nothing yet.
pub data Phase : Type 0 where
  other cleared running filled : Phase

-- What a poll of the status `u` of a running command tells.
abbrev pub polled_phase : ℕ → Phase
polled_phase u = if test_bits u 2 then other else if test_bits u 1 then filled else running

-- The controller as a receiver. A command with the bit VALID asks for as many bytes as it says,
-- from the position of the device on, and moves the position, which nothing else does. If the
-- status was cleared before, the command runs until a poll of the status shows an error or the end.
-- Only from a poll on that shows the end and no error, the MISO buffer holds those bytes, and then
-- reads of the buffer return what it holds and leave it alone.
pub record IsReceiver {S : Type 0} (io : Mmio S) (bus : SpiBus) (held : S → ℕ → ℕ) (device : ℕ → ℕ)
    (phase : S → Phase) (position started asked : S → ℕ) : Type 0 where
  pub read_position : (s : S) (a : ℕ) → position (io.readl a s).1 ≡ position s
  pub read_started : (s : S) (a : ℕ) → started (io.readl a s).1 ≡ started s
  pub read_asked : (s : S) (a : ℕ) → asked (io.readl a s).1 ≡ asked s
  pub read_lt : (s : S) (a : ℕ) → (io.readl a s).0 < 2 ^ 32
  pub status_position :
      (s : S) (v : ℕ) → position (io.writel (bus.mmio_csr + reg_desc_sts) v s) ≡ position s
  pub status_cleared : (s : S) → phase (io.writel (bus.mmio_csr + reg_desc_sts) 3 s) ≡ cleared
  pub read_cleared :
      (s : S) → phase s ≡ cleared → phase (io.readl (bus.mmio_csr + reg_desc_cmd) s).1 ≡ cleared
  pub command_position :
      (s : S) (v : ℕ)
      → bit v 31 ≡ 1
      → position (io.writel (bus.mmio_csr + reg_desc_cmd) v s) ≡ position s + data_len v
  pub command_started :
      (s : S) (v : ℕ)
      → bit v 31 ≡ 1
      → started (io.writel (bus.mmio_csr + reg_desc_cmd) v s) ≡ position s
  pub command_asked :
      (s : S) (v : ℕ)
      → bit v 31 ≡ 1
      → asked (io.writel (bus.mmio_csr + reg_desc_cmd) v s) ≡ data_len v
  pub command_running :
      (s : S) (v : ℕ)
      → bit v 31 ≡ 1
      → phase s ≡ cleared
      → phase (io.writel (bus.mmio_csr + reg_desc_cmd) v s) ≡ running
  pub read_running :
      (s : S)
      → phase s ≡ running
      → phase (io.readl (bus.mmio_csr + reg_desc_sts) s).1
        ≡ polled_phase (io.readl (bus.mmio_csr + reg_desc_sts) s).0
  pub filled_held :
      (s : S)
      → phase s ≡ filled
      → held_bytes (held s) bus.mmio_miso (asked s) ≡ next_bytes device (started s) (asked s)
  pub read_filled :
      (s : S) (a : ℕ)
      → phase s ≡ filled
      → bus.mmio_miso ≤ a
      → a < bus.mmio_miso + 512
      → ((io.readl a s).0 ≡ held s a)
        × (phase (io.readl a s).1 ≡ filled)
        × ((b : ℕ) → held (io.readl a s).1 b ≡ held s b)

module _ {S : Type 0} {io : Mmio S} {bus : SpiBus} {held : S → ℕ → ℕ} {device : ℕ → ℕ}
    {phase : S → Phase} {position started asked : S → ℕ}
    (receiver : IsReceiver io bus held device phase position started asked) where
  -- What every read keeps, a wait and a bulk read keep.
  poll_kept :
      (f : S → ℕ)
      → ((s : S) (a : ℕ) → f (io.readl a s).1 ≡ f s)
      → (fuel : ℕ) (s : S) → f (poll_xfer io bus fuel s).1 ≡ f s
  unfolding poll_xfer
  poll_kept f kept zero s = refl
  poll_kept f kept (suc fuel) s =
      let s' = (spi_csr_read io bus reg_desc_sts s).1 in
      ground (arith, kept s (bus.mmio_csr + reg_desc_sts), poll_kept f kept fuel s')

  bulk_read_position : (a n : ℕ) (s : S) → position (fbiob_bulk_read io a n s).1 ≡ position s
  unfolding fbiob_bulk_read
  bulk_read_position a zero s = refl
  bulk_read_position a (suc zero) s = receiver.read_position s a
  bulk_read_position a (suc (suc zero)) s = receiver.read_position s a
  bulk_read_position a (suc (suc (suc zero))) s = receiver.read_position s a
  bulk_read_position a (suc (suc (suc (suc n)))) s =
      bulk_read_position (a + 4) n (io.readl a s).1 ∙ receiver.read_position s a

  -- A wait that succeeds on a running command ends with the buffer filled.
  poll_filled :
      (fuel : ℕ) (s : S)
      → phase s ≡ running
      → (poll_xfer io bus fuel s).0 ≡ none
      → phase (poll_xfer io bus fuel s).1 ≡ filled
  unfolding poll_xfer
  poll_filled zero s run passed = absurd (ground arith)
  poll_filled (suc fuel) s run passed =
      let (u, s') = io.readl (bus.mmio_csr + reg_desc_sts) s in
      let next : phase s' ≡ polled_phase u = receiver.read_running s run in
      elim (Bool-cases (test_bits u 2)) [
        | inl failed ↦ absurd (ground (arith, failed, passed))
        | inr sound ↦ elim (Bool-cases (test_bits u 1)) [
          | inl done ↦ ground (arith, sound, done, next)
          | inr waits ↦ ground (
            arith,
            sound,
            waits,
            poll_filled fuel s' (ground (arith, sound, waits, next))
                (ground (arith, sound, waits, passed)),
          )
        ]
      ]

  bulk_read_filled :
      (a n : ℕ) (s : S)
      → bus.mmio_miso ≤ a
      → a + n ≤ bus.mmio_miso + 512
      → phase s ≡ filled
      → (fbiob_bulk_read io a n s).0 ≡ held_bytes (held s) a n
  unfolding fbiob_bulk_read
  bulk_read_filled a zero s p q full = refl
  bulk_read_filled a (suc zero) s p q full =
      ap (bytes 1) (receiver.read_filled s a full p (omega arith)).0
  bulk_read_filled a (suc (suc zero)) s p q full =
      ap (bytes 2) (receiver.read_filled s a full p (omega arith)).0
  bulk_read_filled a (suc (suc (suc zero))) s p q full =
      ap (bytes 3) (receiver.read_filled s a full p (omega arith)).0
  bulk_read_filled a (suc (suc (suc (suc n)))) s p q full =
      let s' = (io.readl a s).1 in
      let (word_held, still, kept) = receiver.read_filled s a full p (omega arith) in
      ap₂ (λ (x y : List ℕ). x ++ y) (ap (bytes 4) word_held)
        (bulk_read_filled (a + 4) n s' (omega arith) (omega arith) still
          ∙ held_bytes_cong (held s') (held s) (a + 4) n kept)

  -- One round after the status was cleared receives the next bytes, if its wait succeeds.
  single_received :
      (nleft : ℕ) (s : S) (received : List ℕ)
      → 0 < nleft
      → phase s ≡ cleared
      → (fbiob_spi_xfer_single_rx io bus nleft s).0 ≡ ok received
      → (received ≡ next_bytes device (position s) (min nleft 512))
        × (position (fbiob_spi_xfer_single_rx io bus nleft s).1 ≡ position s + min nleft 512)
  unfolding fbiob_spi_xfer_single_rx wait_till_xfer_done fbiob_spi_send_cmd
  single_received nleft s received h clear e =
      let n = min nleft 512 in
      let (val, s') = spi_csr_read io bus reg_desc_cmd s in
      let cmd = command_word n val in
      let (len, valid) =
        command_word_bits n val 31 (omega arith) (omega arith)
          (receiver.read_lt s (bus.mmio_csr + reg_desc_cmd)) (omega arith) in
      let sent = spi_csr_write io bus reg_desc_cmd cmd s' in
      let waited = poll_xfer io bus 31 sent in
      let same : position s' ≡ position s =
        receiver.read_position s (bus.mmio_csr + reg_desc_cmd) in
      let run : phase sent ≡ running =
        receiver.command_running s' cmd valid (receiver.read_cleared s clear) in
      let from : started waited.1 ≡ position s =
        poll_kept started receiver.read_started 31 sent
        ∙ receiver.command_started s' cmd valid
        ∙ same in
      let total : asked waited.1 ≡ n =
        poll_kept asked receiver.read_asked 31 sent ∙ receiver.command_asked s' cmd valid ∙ len in
      let moved : position (fbiob_bulk_read io bus.mmio_miso n waited.1).1 ≡ position s + n =
        bulk_read_position bus.mmio_miso n waited.1
        ∙ poll_kept position receiver.read_position 31 sent
        ∙ receiver.command_position s' cmd valid
        ∙ ap₂ (λ (x y : ℕ). x + y) same len in
      elim (Option-cases waited.0) [
        | inl passed ↦
            let full : phase waited.1 ≡ filled = poll_filled 31 sent run passed in
            let got : (fbiob_bulk_read io bus.mmio_miso n waited.1).0
                ≡ next_bytes device (position s) n =
              bulk_read_filled bus.mmio_miso n waited.1 (omega arith) (omega arith) full
              ∙ ap (held_bytes (held waited.1) bus.mmio_miso) (sym total)
              ∙ receiver.filled_held waited.1 full
              ∙ ap₂ (next_bytes device) from total in
            (ground (arith, passed, got, e), ground (arith, passed, moved))
        | inr (c, failed) ↦ absurd (ground (arith, failed, e))
      ]

  single-ne-undefined :
      (nleft : ℕ) (s : S) → (fbiob_spi_xfer_single_rx io bus nleft s).0 ≢ undefined
  unfolding fbiob_spi_xfer_single_rx
  single-ne-undefined nleft s = ground arith

  loop_received :
      (fuel nleft : ℕ) (s : S)
      → nleft ≤ fuel
      → (rx_loop io bus fuel nleft s).0.0 ≡ none
      → (rx_loop io bus fuel nleft s).0.1 ≡ next_bytes device (position s) nleft
  unfolding rx_loop
  loop_received fuel zero s h e = refl
  loop_received zero (suc n) s h e = absurd (omega arith)
  loop_received (suc fuel) (suc n) s h e =
      let clean = clear_status io bus s in
      let same : position clean ≡ position s = receiver.status_position s 3 in
      let single = fbiob_spi_xfer_single_rx io bus (suc n) clean in
      let m = min (suc n) 512 in
      elim (Ret-cases single.0) [
        | inl (received, passed) ↦
            let (got, moved) =
              single_received (suc n) clean received (omega arith) (receiver.status_cleared s)
                passed in
            let rest =
              loop_received fuel (suc n - 512) single.1 (omega arith) (ground (arith, passed, e)) in
            let total : m + (suc n - 512) ≡ suc n = omega arith in
            let whole : received ++ (rx_loop io bus fuel (suc n - 512) single.1).0.1
                ≡ next_bytes device (position s) (suc n) =
              ap₂ (λ (x y : List ℕ). x ++ y) got rest
              ∙ ap
                  (λ (p : ℕ).
                    next_bytes device (position clean) m ++ next_bytes device p (suc n - 512))
                  moved
              ∙ next_bytes_append device (position clean) m (suc n - 512)
              ∙ ap₂ (next_bytes device) same total in
            ground (arith, passed, whole)
        | inr (inl (c, failed)) ↦ absurd (ground (arith, failed, e))
        | inr (inr lost) ↦ absurd (single-ne-undefined (suc n) clean lost)
      ]

  -- On a controller that has the bytes that a command asked for in its receive buffer once, and
  -- only once, a poll of the status shows the end of the command without an error, a receive that
  -- succeeds returns the next bytes of the device, in order, as many as were asked for.
  pub fbiob_spi_xfer_rx_receives :
      (len : ℕ) (s : S)
      → (fbiob_spi_xfer_rx io bus len s).0.0 ≡ none
      → (fbiob_spi_xfer_rx io bus len s).0.1 ≡ next_bytes device (position s) len
  unfolding fbiob_spi_xfer_rx
  fbiob_spi_xfer_rx_receives len s e = loop_received len len s (omega arith) e
