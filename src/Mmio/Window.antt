-- ===== src/Mmio/Window.antt =====
-- What bulk writes put into a window of registers that keep what is written to them, and what bulk
-- reads take out of it.
use fboss_bsp_kmods.Base.{ℕ, zero, suc, ◌+◌, ◌/◌, ◌%◌, ◌≤◌, ◌<◌, ◌≡◌, arith, List, [], ◌∷◌, ◌++◌}
use fboss_bsp_kmods.Base.{length, take, All, ap, ap₂, ◌∙◌, refl}
use fboss_bsp_kmods.Kernel.{update}
use fboss_bsp_kmods.Mmio.{Mmio, word, bytes, fbiob_bulk_write, fbiob_bulk_read}

abbrev pub IsBytes : List ℕ → Type 0
IsBytes = All (λ b. b < 256)

-- A window from `low` to `high`, while `Open` holds: words written are kept, and reads change nothing.
pub record IsWindow {S : Type 0} (io : Mmio S) (low high : ℕ) (Open : S → Type 0) (held : S → ℕ → ℕ)
    : Type 0 where
  pub write_open : (s : S) (a v : ℕ) → low ≤ a → a < high → Open s → Open (io.writel a v s)
  pub write_held :
      (s : S) (a v b : ℕ)
      → low ≤ a
      → a < high
      → Open s
      → held (io.writel a v s) b ≡ update (held s) a v b

-- The bytes that words hold from an address on.
abbrev pub held_bytes : (ℕ → ℕ) → ℕ → ℕ → List ℕ
held_bytes w a zero = []
held_bytes w a (suc zero) = bytes 1 (w a)
held_bytes w a (suc (suc zero)) = bytes 2 (w a)
held_bytes w a (suc (suc (suc zero))) = bytes 3 (w a)
held_bytes w a (suc (suc (suc (suc n)))) = bytes 4 (w a) ++ held_bytes w (a + 4) n

module _ {S : Type 0} {io : Mmio S} {low high : ℕ} {Open : S → Type 0} {held : S → ℕ → ℕ}
    (window : IsWindow io low high Open held) where
  pub bulk_write_open :
      (a : ℕ) (bs : List ℕ) (s : S)
      → low ≤ a
      → a + length bs ≤ high
      → Open s
      → Open (fbiob_bulk_write io a bs s)
  unfolding fbiob_bulk_write
  bulk_write_open a [] s p q o = o
  bulk_write_open a (b0 ∷ []) s p q o = window.write_open s a _ p (omega arith) o
  bulk_write_open a (b0 ∷ b1 ∷ []) s p q o = window.write_open s a _ p (omega arith) o
  bulk_write_open a (b0 ∷ b1 ∷ b2 ∷ []) s p q o = window.write_open s a _ p (omega arith) o
  bulk_write_open a (b0 ∷ b1 ∷ b2 ∷ b3 ∷ rest) s p q o =
      bulk_write_open (a + 4) rest _ (omega arith) (omega arith)
        (window.write_open s a _ p (omega arith) o)

  pub bulk_write_below :
      (a : ℕ) (bs : List ℕ) (s : S) (b : ℕ)
      → low ≤ a
      → a + length bs ≤ high
      → b < a
      → Open s
      → held (fbiob_bulk_write io a bs s) b ≡ held s b
  unfolding fbiob_bulk_write
  bulk_write_below a [] s b p q r o = refl
  bulk_write_below a (b0 ∷ []) s b p q r o =
      ground (arith, window.write_held s a (word b0 0 0 0) b p (omega arith) o)
  bulk_write_below a (b0 ∷ b1 ∷ []) s b p q r o =
      ground (arith, window.write_held s a (word b0 b1 0 0) b p (omega arith) o)
  bulk_write_below a (b0 ∷ b1 ∷ b2 ∷ []) s b p q r o =
      ground (arith, window.write_held s a (word b0 b1 b2 0) b p (omega arith) o)
  bulk_write_below a (b0 ∷ b1 ∷ b2 ∷ b3 ∷ rest) s b p q r o = ground (
    arith,
    bulk_write_below (a + 4) rest (io.writel a (word b0 b1 b2 b3) s) b (omega arith) (omega arith)
        (omega arith) (window.write_open s a (word b0 b1 b2 b3) p (omega arith) o),
    window.write_held s a (word b0 b1 b2 b3) b p (omega arith) o,
  )

-- The low bytes of a word are the bytes that it is made of.
pub bytes-word :
    (b0 b1 b2 b3 : ℕ)
    → b0 < 256
    → b1 < 256
    → b2 < 256
    → b3 < 256
    → bytes 4 (word b0 b1 b2 b3) ≡ b0 ∷ b1 ∷ b2 ∷ b3 ∷ []
bytes-word b0 b1 b2 b3 h0 h1 h2 h3 =
    let e0 : word b0 b1 b2 b3 % 256 ≡ b0 = omega arith in
    let e1 : word b0 b1 b2 b3 / 256 % 256 ≡ b1 = omega arith in
    let e2 : word b0 b1 b2 b3 / 256 / 256 % 256 ≡ b2 = omega arith in
    let e3 : word b0 b1 b2 b3 / 256 / 256 / 256 % 256 ≡ b3 = omega arith in rw (e0, e1, e2, e3) refl

module _ {S : Type 0} {io : Mmio S} {low high : ℕ} {Open : S → Type 0} {held : S → ℕ → ℕ}
    (window : IsWindow io low high Open held) where
  written : (a v : ℕ) (s : S) → low ≤ a → a < high → Open s → held (io.writel a v s) a ≡ v
  written a v s p q o = ground (arith, window.write_held s a v a p q o)

  -- What a bulk write puts into a window that is open stands there in order.
  pub held_bytes-fbiob_bulk_write :
      (a : ℕ) (bs : List ℕ) (s : S)
      → low ≤ a
      → a + length bs ≤ high
      → IsBytes bs
      → Open s
      → held_bytes (held (fbiob_bulk_write io a bs s)) a (length bs) ≡ bs
  unfolding fbiob_bulk_write
  held_bytes-fbiob_bulk_write a [] s p q h o = refl
  held_bytes-fbiob_bulk_write a (b0 ∷ []) s p q h o =
      ap (bytes 1) (written a _ s p (omega arith) o)
      ∙ ap (take 1) (bytes-word b0 0 0 0 h.0 (omega arith) (omega arith) (omega arith))
  held_bytes-fbiob_bulk_write a (b0 ∷ b1 ∷ []) s p q h o =
      ap (bytes 2) (written a _ s p (omega arith) o)
      ∙ ap (take 2) (bytes-word b0 b1 0 0 h.0 h.1.0 (omega arith) (omega arith))
  held_bytes-fbiob_bulk_write a (b0 ∷ b1 ∷ b2 ∷ []) s p q h o =
      ap (bytes 3) (written a _ s p (omega arith) o)
      ∙ ap (take 3) (bytes-word b0 b1 b2 0 h.0 h.1.0 h.1.1.0 (omega arith))
  held_bytes-fbiob_bulk_write a (b0 ∷ b1 ∷ b2 ∷ b3 ∷ rest) s p q h o =
      let s' = io.writel a (word b0 b1 b2 b3) s in
      let open_still = window.write_open s a (word b0 b1 b2 b3) p (omega arith) o in
      let kept : held (fbiob_bulk_write io (a + 4) rest s') a ≡ word b0 b1 b2 b3 = ground (
        arith,
        bulk_write_below window (a + 4) rest s' a (omega arith) (omega arith) (omega arith)
            open_still,
        window.write_held s a (word b0 b1 b2 b3) a p (omega arith) o,
      ) in
      let tail =
        held_bytes-fbiob_bulk_write (a + 4) rest s' (omega arith) (omega arith) h.1.1.1.1
          open_still in
      ap₂ (λ (x y : List ℕ). x ++ y)
        (ap (bytes 4) kept ∙ bytes-word b0 b1 b2 b3 h.0 h.1.0 h.1.1.0 h.1.1.1.0) tail

pub held_bytes_cong :
    (w w' : ℕ → ℕ) (a n : ℕ) → ((b : ℕ) → w b ≡ w' b) → held_bytes w a n ≡ held_bytes w' a n
held_bytes_cong w w' a zero h = refl
held_bytes_cong w w' a (suc zero) h = ap (bytes 1) (h a)
held_bytes_cong w w' a (suc (suc zero)) h = ap (bytes 2) (h a)
held_bytes_cong w w' a (suc (suc (suc zero))) h = ap (bytes 3) (h a)
held_bytes_cong w w' a (suc (suc (suc (suc n)))) h =
    ap₂ (λ (x y : List ℕ). x ++ y) (ap (bytes 4) (h a)) (held_bytes_cong w w' (a + 4) n h)

-- Reads return what the registers hold and change nothing.
pub record IsReadable {S : Type 0} (io : Mmio S) (held : S → ℕ → ℕ) : Type 0 where
  pub read_held : (s : S) (a : ℕ) → (io.readl a s).0 ≡ held s a
  pub read_kept : (s : S) (a b : ℕ) → held (io.readl a s).1 b ≡ held s b

module _ {S : Type 0} {io : Mmio S} {held : S → ℕ → ℕ} (readable : IsReadable io held) where
  -- A bulk read returns the bytes that the registers hold.
  pub fbiob_bulk_read_lem :
      (a n : ℕ) (s : S) → (fbiob_bulk_read io a n s).0 ≡ held_bytes (held s) a n
  unfolding fbiob_bulk_read
  fbiob_bulk_read_lem a zero s = refl
  fbiob_bulk_read_lem a (suc zero) s = ap (bytes 1) (readable.read_held s a)
  fbiob_bulk_read_lem a (suc (suc zero)) s = ap (bytes 2) (readable.read_held s a)
  fbiob_bulk_read_lem a (suc (suc (suc zero))) s = ap (bytes 3) (readable.read_held s a)
  fbiob_bulk_read_lem a (suc (suc (suc (suc n)))) s =
      let s' = (io.readl a s).1 in
      ap₂ (λ (x y : List ℕ). x ++ y) (ap (bytes 4) (readable.read_held s a))
        (fbiob_bulk_read_lem (a + 4) n s'
          ∙ held_bytes_cong (held s') (held s) (a + 4) n (readable.read_kept s a))

-- Bytes that a bulk write puts into a window that is open, keeps words and is readable come back
-- from a bulk read of as many bytes at the same address, also where their number is not a
-- multiple of four.
pub fbiob_bulk_read-fbiob_bulk_write :
    {S : Type 0} (io : Mmio S) (low high : ℕ) (Open : S → Type 0) (held : S → ℕ → ℕ)
    → IsWindow io low high Open held
    → IsReadable io held
    → (a : ℕ) (bs : List ℕ) (s : S) → low ≤ a
    → a + length bs ≤ high
    → IsBytes bs
    → Open s
    → (fbiob_bulk_read io a (length bs) (fbiob_bulk_write io a bs s)).0 ≡ bs
fbiob_bulk_read-fbiob_bulk_write io low high Open held window readable a bs s p q h o =
    fbiob_bulk_read_lem readable a (length bs) (fbiob_bulk_write io a bs s)
    ∙ held_bytes-fbiob_bulk_write window a bs s p q h o
