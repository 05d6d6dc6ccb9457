-- ===== src/I2c/Frame.antt =====
-- The frame that the driver puts into the two pages of the transmit buffer.
use fboss_bsp_kmods.Base.{ℕ, zero, suc, ◌-◌, ◌*◌, ◌^◌, ◌≤◌, ◌<◌, ◌≡◌, arith, refl, sym, ◌∙◌}
use fboss_bsp_kmods.Base.{List, [], ◌∷◌, length, take, drop, Option, none, Bool, true, false}
use fboss_bsp_kmods.Base.{ltb, bit_and, bit_or, not, ◌&&◌}
use fboss_bsp_kmods.Bits.{not_u32, test_bits}
use mathlib.Core.Path.{subst}
use fboss_bsp_kmods.Bits.Bytes.{every_below, every_below_sound}
use fboss_bsp_kmods.Kernel.{update}
use fboss_bsp_kmods.Mmio.{Mmio, fbiob_bulk_write}
use fboss_bsp_kmods.Mmio.Window.{
  IsWindow, IsBytes, held_bytes, held_bytes_cong, bulk_write_open, held_bytes-fbiob_bulk_write,
}
use fboss_bsp_kmods.I2c.{Bus, reg_buf_ctrl, fbiob_i2c_fill_tx_buf, fill_high_page, buf_mem_page_sel}

-- The transmit buffer of the controller: two pages at the same addresses, of which bit 6 of
-- BUF_CTRL selects one. A write to the buffer goes to the page that is selected, and to no other.
pub record IsPaged {S : Type 0} (io : Mmio S) (high_page : S → Bool) (held : Bool → S → ℕ → ℕ)
    : Type 0 where
  pub select_page :
      (s : S) (v : ℕ) → high_page (io.writel reg_buf_ctrl v s) ≡ test_bits v buf_mem_page_sel
  pub select_held :
      (s : S) (v b : ℕ) (p : Bool) → held p (io.writel reg_buf_ctrl v s) b ≡ held p s b
  pub write_page :
      (s : S) (a v : ℕ) → 0x80 ≤ a → a < 0x100 → high_page (io.writel a v s) ≡ high_page s
  pub write_own :
      (s : S) (a v b : ℕ) (p : Bool)
      → 0x80 ≤ a
      → a < 0x100
      → high_page s ≡ p
      → held p (io.writel a v s) b ≡ update (held p s) a v b
  pub write_other :
      (s : S) (a v b : ℕ) (p : Bool)
      → 0x80 ≤ a
      → a < 0x100
      → high_page s ≡ not p
      → held p (io.writel a v s) b ≡ held p s b

-- The size that is written to BUF_CTRL leaves the page bit clear.
size_table :
    every_below 256 (λ n.
      not (test_bits (bit_and (bit_and (n * 2 ^ 8) 0xFF00) (not_u32 64)) 64)
      && test_bits (bit_or (bit_and (bit_and (n * 2 ^ 8) 0xFF00) (not_u32 64)) 64) 64)
    ≡ true
unfolding every_below
size_table = refl

size_page :
    (n : ℕ)
    → n < 256
    → let size = bit_and (bit_and (n * 2 ^ 8) 0xFF00) (not_u32 64) in
      (test_bits size 64 ≡ false) × (test_bits (bit_or size 64) 64 ≡ true)
size_page n h =
    let table =
      every_below_sound 256
        (λ n.
          not (test_bits (bit_and (bit_and (n * 2 ^ 8) 0xFF00) (not_u32 64)) 64)
          && test_bits (bit_or (bit_and (bit_and (n * 2 ^ 8) 0xFF00) (not_u32 64)) 64) 64)
        n size_table h in
    (ground (arith, table), ground (arith, table))

length-take_le : (n : ℕ) (xs : List ℕ) → length (take n xs) ≤ n
length-take_le zero xs = omega arith
length-take_le (suc n) [] = omega arith
length-take_le (suc n) (x ∷ xs) = omega (arith, length-take_le n xs)

pub length-drop_lem : (n : ℕ) (xs : List ℕ) → length (drop n xs) ≡ length xs - n
length-drop_lem zero xs = omega arith
length-drop_lem (suc n) [] = omega arith
length-drop_lem (suc n) (x ∷ xs) = omega (arith, length-drop_lem n xs)

take-IsBytes : (n : ℕ) (xs : List ℕ) → IsBytes xs → IsBytes (take n xs)
take-IsBytes zero xs h = tt
take-IsBytes (suc n) [] h = tt
take-IsBytes (suc n) (x ∷ xs) h = (h.0, take-IsBytes n xs h.1)

drop-IsBytes : (n : ℕ) (xs : List ℕ) → IsBytes xs → IsBytes (drop n xs)
drop-IsBytes zero xs h = h
drop-IsBytes (suc n) [] h = tt
drop-IsBytes (suc n) (x ∷ xs) h = drop-IsBytes n xs h.1

module _ {S : Type 0} {io : Mmio S} {high_page : S → Bool} {held : Bool → S → ℕ → ℕ}
    (paged : IsPaged io high_page held) where
  -- Page `p` is selected, and the other page holds `other`.
  abbrev Selected : Bool → (ℕ → ℕ) → S → Type 0
  Selected p other s = (high_page s ≡ p) × ((b : ℕ) → held (not p) s b ≡ other b)

  page-IsWindow : (p : Bool) (other : ℕ → ℕ) → IsWindow io 0x80 0x100 (Selected p other) (held p)
  page-IsWindow p other = record {
    write_open = λ s a v h q o. (
      paged.write_page s a v h q ∙ o.0,
      λ b. paged.write_other s a v b (not p) h q (o.0 ∙ ground arith) ∙ o.1 b,
    );
    write_held = λ s a v b h q o. paged.write_own s a v b p h q o.0;
  }

  fill_high_page_lem :
      (reg_csr : ℕ) (left : List ℕ) (bus : Bus S)
      → test_bits (bit_or reg_csr buf_mem_page_sel) buf_mem_page_sel ≡ true
      → IsBytes left
      → length left ≤ 128
      → let done = fill_high_page io reg_csr left bus in
        (held_bytes (held true done.hw) 0x80 (length left) ≡ left)
        × ((b : ℕ) → held false done.hw b ≡ held false bus.hw b)
  unfolding fill_high_page
  fill_high_page_lem reg_csr [] bus to_high h fits = (refl, λ b. refl)
  fill_high_page_lem reg_csr (x ∷ left) bus to_high h fits =
      let s = io.writel reg_buf_ctrl (bit_or reg_csr buf_mem_page_sel) bus.hw in
      let window = page-IsWindow true (held false s) in
      let selected : Selected true (held false s) s =
        (paged.select_page bus.hw (bit_or reg_csr buf_mem_page_sel) ∙ to_high, λ b. refl) in
      let kept = bulk_write_open window 0x80 (x ∷ left) s (omega arith) (omega arith) selected in
      (
        held_bytes-fbiob_bulk_write window 0x80 (x ∷ left) s (omega arith) (omega arith) h selected,
        λ b. kept.1 b ∙ paged.select_held bus.hw (bit_or reg_csr buf_mem_page_sel) b false,
      )

  fill_low_page_lem :
      (reg_csr : ℕ) (low : List ℕ) (s : S)
      → test_bits reg_csr buf_mem_page_sel ≡ false
      → IsBytes low
      → length low ≤ 128
      → let done = fbiob_bulk_write io 0x80 low (io.writel reg_buf_ctrl reg_csr s) in
        held_bytes (held false done) 0x80 (length low) ≡ low
  fill_low_page_lem reg_csr low s to_low h fits =
      let s' = io.writel reg_buf_ctrl reg_csr s in
      held_bytes-fbiob_bulk_write (page-IsWindow false (held true s')) 0x80 low s' (omega arith)
        (omega arith) h (paged.select_page s reg_csr ∙ to_low, λ b. refl)

  abbrev tx_size : List ℕ → ℕ
  tx_size payload = bit_and (bit_and (length payload * 2 ^ 8) 0xFF00) (not_u32 buf_mem_page_sel)

  abbrev after_low : ℕ → List ℕ → Bus S → Bus S
  after_low i2c_addr payload bus = record bus {
    hw =
        fbiob_bulk_write io 0x80 (i2c_addr ∷ take 127 payload)
          (io.writel reg_buf_ctrl (tx_size payload) bus.hw);
  }

  fill_tx_buf_ok :
      (i2c_addr : ℕ) (payload : List ℕ) (bus : Bus S)
      → length payload ≤ 255
      → fbiob_i2c_fill_tx_buf io i2c_addr payload bus ≡ (
        none,
        fill_high_page io (tx_size payload) (drop 127 payload) (after_low i2c_addr payload bus),
      )
  unfolding fbiob_i2c_fill_tx_buf
  fill_tx_buf_ok i2c_addr payload bus fits =
      let short : ltb 255 (length payload) ≡ false = ground arith in rw short refl

  -- On a buffer of two pages, filling it for an address byte and a payload of up to 255 bytes
  -- succeeds, and leaves the address and then the payload in order, the first 128 bytes in the
  -- low page and the rest in the high page.
  pub fbiob_i2c_fill_tx_buf_frame :
      (i2c_addr : ℕ) (payload : List ℕ) (bus : Bus S)
      → i2c_addr < 256
      → IsBytes payload
      → length payload ≤ 255
      → let frame = i2c_addr ∷ payload in
        let (ret, bus') = fbiob_i2c_fill_tx_buf io i2c_addr payload bus in
        (ret ≡ none)
        × (held_bytes (held false bus'.hw) 0x80 (length (take 128 frame)) ≡ take 128 frame)
        × (held_bytes (held true bus'.hw) 0x80 (length (drop 128 frame)) ≡ drop 128 frame)
  fbiob_i2c_fill_tx_buf_frame i2c_addr payload bus small h fits =
      let low = i2c_addr ∷ take 127 payload in
      let high = drop 127 payload in
      let pages = size_page (length payload) (omega arith) in
      let low_fits = length-take_le 127 payload in
      let high_fits = length-drop_lem 127 payload in
      let low_held =
        fill_low_page_lem (tx_size payload) low bus.hw pages.0 (small, take-IsBytes 127 payload h)
          (omega arith) in
      let (high_held, kept) =
        fill_high_page_lem (tx_size payload) high (after_low i2c_addr payload bus) pages.1
          (drop-IsBytes 127 payload h) (omega arith) in
      subst
        (λ (r : Option ℕ × Bus S).
          (r.0 ≡ none)
          × (held_bytes (held false r.1.hw) 0x80 (length low) ≡ low)
          × (held_bytes (held true r.1.hw) 0x80 (length high) ≡ high))
        (sym (fill_tx_buf_ok i2c_addr payload bus fits))
        (refl, held_bytes_cong _ _ 0x80 (length low) kept ∙ low_held, high_held)
