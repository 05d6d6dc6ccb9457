-- ===== src/I2c/Tests.antt =====
-- Concrete runs of the controller of kmods/fboss_iob_i2c.c, and the theorems at them.
use fboss_bsp_kmods.Base.{
  ℕ, zero, suc, ◌-◌, ◌^◌, ◌≤◌, ◌↔◌, ◌&&◌, ◌≡◌, arith, refl, Bool, true, false,
}
use fboss_bsp_kmods.Base.{List, [], ◌∷◌, take, replicate, some, none, if◌then◌else◌, ltb, ◌==◌}
use fboss_bsp_kmods.Bits.{bit, test_bits}
use fboss_bsp_kmods.Kernel.{update}
use fboss_bsp_kmods.Mmio.{Mmio}
use fboss_bsp_kmods.Mmio.Window.{IsBytes, held_bytes}
use fboss_bsp_kmods.Mmio.Registers.{words, Words, word_at, words-IsWindow, words-IsReadable}
use fboss_bsp_kmods.I2c.{Msg, Bus, state_start, fbiob_i2c_set_timing, reg_buf_ctrl}
use fboss_bsp_kmods.I2c.{buf_mem_page_sel, fbiob_i2c_fill_tx_buf, wait_bus_for_free}
use fboss_bsp_kmods.I2c.Frame.{IsPaged, fbiob_i2c_fill_tx_buf_frame}
use fboss_bsp_kmods.I2c.Control.{polled, wait_bus_for_free_iff}
use fboss_bsp_kmods.I2c.Control.{fbiob_i2c_set_timing_bits}

-- A transmit buffer of two pages.
record Pages : Type 0 where
  high_page : Bool
  low : Words
  high : Words

abbrev page : Bool → Pages → Words
page false s = s.low
page true s = s.high

abbrev write_page : Bool → ℕ → ℕ → Pages → Pages
write_page false a v s = record s { low = update s.low a v }
write_page true a v s = record s { high = update s.high a v }

abbrev pages : Mmio Pages
pages = record {
  readl = λ a s. (page s.high_page s a, s);
  writel = λ a v s.
      if a == reg_buf_ctrl
      then record s { high_page = test_bits v buf_mem_page_sel }
      else write_page s.high_page a v s;
}

select_keeps :
    (s : Pages) (v b : ℕ) (p : Bool) → page p (pages.writel reg_buf_ctrl v s) b ≡ page p s b
select_keeps s v b true = refl
select_keeps s v b false = refl

pages-IsPaged : IsPaged pages (λ s. s.high_page) page
pages-IsPaged = record {
  select_page = λ s v. refl;
  select_held = λ s v b p. select_keeps s v b p;
  write_page = λ s a v h q. ground arith;
  write_own = λ s a v b p h q e. ground arith;
  write_other = λ s a v b p h q e. ground arith;
}

replicate-IsBytes : (n : ℕ) → IsBytes (replicate n 7)
replicate-IsBytes zero = tt
replicate-IsBytes (suc n) = (omega arith, replicate-IsBytes n)

abbrev idle : Bus Pages
idle = record {
  hw = record { high_page = false; low = λ a. 0; high = λ a. 0 };
  state = state_start;
  bus_freq_hz = 100000;
}

-- 130 bytes of payload fill the low page and three bytes of the high one.
fbiob_i2c_fill_tx_buf_frame_example :
    let frame : List ℕ = 0xa0 ∷ replicate 130 7 in
    let (ret, bus') = fbiob_i2c_fill_tx_buf pages 0xa0 (replicate 130 7) idle in
    (ret ≡ none)
    × (held_bytes (page false bus'.hw) 0x80 128 ≡ take 128 frame)
    × (held_bytes (page true bus'.hw) 0x80 3 ≡ 7 ∷ 7 ∷ 7 ∷ [])
fbiob_i2c_fill_tx_buf_frame_example =
    fbiob_i2c_fill_tx_buf_frame pages-IsPaged 0xa0 (replicate 130 7) idle (omega arith)
      (replicate-IsBytes 130) (omega arith)

abbrev odd_clock : Bus Words
odd_clock = record { hw = λ a. 0x7ff; state = state_start; bus_freq_hz = 123 }

-- An unknown frequency becomes 100 kHz.
fbiob_i2c_set_timing_bits_example :
    let bus' = fbiob_i2c_set_timing words odd_clock in
    (bus'.bus_freq_hz ≡ 100000)
    × ((b k : ℕ)
        → bit (word_at bus'.hw b) k
          ≡ (if b == 4 && ltb k 8 then bit 0x63 k else bit (word_at odd_clock.hw b) k))
fbiob_i2c_set_timing_bits_example =
    fbiob_i2c_set_timing_bits words 0x80 word_at odd_clock (words-IsWindow 0x80) words-IsReadable
      (omega arith) (omega arith)

-- A bus that is busy for a number of polls.
abbrev busy_for : Mmio ℕ
busy_for = record { readl = λ a s. ((if s == 0 then 0 else 2 ^ 16), s - 1); writel = λ a v s. s }

abbrev claimed : Bus ℕ
claimed = record { hw = 2; state = state_start; bus_freq_hz = 100000 }

wait_bus_for_free_iff_example :
    ((wait_bus_for_free busy_for claimed).0 ≡ none)
    ↔ ((k : ℕ) × (k ≤ 350) × (bit (busy_for.readl 0x14 (polled busy_for k 2)).0 16 ≡ 0))
wait_bus_for_free_iff_example = wait_bus_for_free_iff busy_for claimed

abbrev probe_msg : Msg
probe_msg = record {
  addr = 0x50;
  is_read = false;
  recv_len = false;
  pec = false;
  len = 1;
  buf = some (0 ∷ []);
}
