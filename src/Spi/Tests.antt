-- ===== src/Spi/Tests.antt =====
-- Concrete runs of the controller of kmods/fboss_iob_spi.c, and the theorems at them.
use fboss_bsp_kmods.Base.{
  ℕ, zero, suc, ◌+◌, ◌-◌, ◌%◌, ◌≡◌, arith, refl, true, false, ◌≤◌, ◌<◌, ◌^◌, none, some,
}
use fboss_bsp_kmods.Base.{
  List, [], ◌∷◌, ◌++◌, if◌then◌else◌, ltb, leb, ◌==◌, ◌&&◌, replicate, take, ap, ap₂, sym, ◌∙◌,
}
use fboss_bsp_kmods.Bits.{bit}
use fboss_bsp_kmods.Kernel.{update}
use fboss_bsp_kmods.Mmio.{Mmio, word, bytes, fbiob_bulk_write, fbiob_bulk_read}
use fboss_bsp_kmods.Mmio.Window.{bytes-word, held_bytes, IsBytes}
use fboss_bsp_kmods.Mmio.Registers.{Words}
use fboss_bsp_kmods.Spi.{SpiBus, SpiTransfer, fbiob_spi_xfer_tx, fbiob_spi_xfer_rx}
use fboss_bsp_kmods.Spi.{
  tx_chunk, tx_loop, rx_loop, poll_xfer, wait_till_xfer_done, fbiob_spi_send_cmd,
}
use fboss_bsp_kmods.Spi.{command_word, fbiob_spi_xfer_single_rx}
use fboss_bsp_kmods.Spi.Command.{data_len}
use fboss_bsp_kmods.Spi.Transmit.{IsSender, fbiob_spi_xfer_tx_sends}
use fboss_bsp_kmods.Spi.Receive.{
  IsReceiver, Phase, other, cleared, running, filled, polled_phase, next_bytes,
  fbiob_spi_xfer_rx_receives,
}
use fboss_bsp_kmods.Spi.Outcome.{fbiob_spi_probe_outcome, devices_of}
use fboss_bsp_kmods.Spi.Probe.{
  Answers, SpiData, SpiDevInfo, spidev_max, fbiob_spi_probe, fbiob_spi_init_mmio,
  fbiob_spi_init_clients, create_clients, fbiob_spi_remove,
}
use fboss_bsp_kmods.Kernel.{undefined}
use fboss_bsp_kmods.Base.{◌≢◌}

abbrev spi : SpiBus
spi = record { mmio_csr = 0; mmio_mosi = 0x400; mmio_miso = 0x600 }

-- A controller whose transmissions end at once with a given status.
record Line : Type 0 where
  mosi : Words
  wire : List ℕ

abbrev line : ℕ → Mmio Line
line outcome = record {
  readl = λ a s. ((if a == 0xC then outcome else 0), s);
  writel = λ a v s.
      if a == 8
      then (if bit v 31 == 1
          then record s { wire = s.wire ++ held_bytes s.mosi 0x400 (data_len v) }
          else s)
      else if leb 0x400 a && ltb a 0x600
      then record s { mosi = update s.mosi a v }
      else s;
}

line-IsSender : IsSender (line 1) spi (λ s a. s.mosi a) (λ s. s.wire)
line-IsSender = record {
  mosi = record { write_open = λ s a v p q o. tt; write_held = λ s a v b p q o. ground arith };
  mosi_sent = λ s a v p q. ground arith;
  read_held = λ s a b. refl;
  read_sent = λ s a. refl;
  read_lt = λ s a. ground arith;
  status_sent = λ s v. refl;
  command_sent = λ s v h. ground arith;
}

abbrev quiet : Line
quiet = record { mosi = λ a. 0; wire = [] }

abbrev page : List ℕ
page = replicate 600 7

replicate-IsBytes : (n : ℕ) → IsBytes (replicate n 7)
replicate-IsBytes zero = tt
replicate-IsBytes (suc n) = (omega arith, replicate-IsBytes n)

-- Six hundred bytes go out as two commands.
page_sent : (fbiob_spi_xfer_tx (line 1) spi page quiet).0 ≡ none
unfolding fbiob_spi_xfer_tx tx_loop tx_chunk poll_xfer wait_till_xfer_done fbiob_spi_send_cmd
    command_word fbiob_bulk_write
page_sent = refl

fbiob_spi_xfer_tx_sends_example : (fbiob_spi_xfer_tx (line 1) spi page quiet).1.wire ≡ page
fbiob_spi_xfer_tx_sends_example =
    fbiob_spi_xfer_tx_sends line-IsSender page quiet (omega arith) (replicate-IsBytes 600) page_sent

-- A device that sends the numbers from 0 on, modulo 256, behind a controller that is done at the
-- third poll: where the last command began to clock and for how many bytes, how much is clocked,
-- and how many polls are to come.
record Source : Type 0 where
  start : ℕ
  len : ℕ
  clocked : ℕ
  left : ℕ
  phase : Phase

abbrev ramp : ℕ → ℕ
ramp p = p % 256

abbrev ramp_word : ℕ → ℕ
ramp_word p = word (ramp p) (ramp (p + 1)) (ramp (p + 2)) (ramp (p + 3))

abbrev miso : Source → ℕ → ℕ
miso s a = ramp_word (s.start + (a - 0x600))

abbrev poll_source : Phase → Source → ℕ × Source
poll_source running s =
    if s.left == 0 then (1, record s { phase = filled }) else (0, record s { left = s.left - 1 })
poll_source other s = (0, s)
poll_source cleared s = (0, s)
poll_source filled s = (0, s)

-- The buffer shows nothing of use before the end.
abbrev shown : Phase → ℕ → ℕ
shown filled v = v
shown other v = 0
shown cleared v = 0
shown running v = 0

abbrev started_phase : Phase → Phase
started_phase cleared = running
started_phase other = other
started_phase running = other
started_phase filled = other

abbrev command_source : ℕ → Source → Source
command_source v s = record {
  start = s.clocked;
  len = data_len v;
  clocked = s.clocked + data_len v;
  left = 2;
  phase = started_phase s.phase;
}

abbrev source : Mmio Source
source = record {
  readl = λ a s. if a == 0xC then poll_source s.phase s else (shown s.phase (miso s a), s);
  writel = λ a v s.
      if a == 8
      then (if bit v 31 == 1 then command_source v s else s)
      else if a == 0xC
      then record s { phase = cleared }
      else s;
}

-- A poll changes only the phase and the number of polls to come.
poll_source_keeps :
    (p : Phase) (s : Source)
    → ((poll_source p s).1.clocked ≡ s.clocked)
      × ((poll_source p s).1.start ≡ s.start)
      × ((poll_source p s).1.len ≡ s.len)
      × ((poll_source p s).0 < 2 ^ 32)
poll_source_keeps running s = (ground arith, ground arith, ground arith, ground arith)
poll_source_keeps other s = (refl, refl, refl, omega arith)
poll_source_keeps cleared s = (refl, refl, refl, omega arith)
poll_source_keeps filled s = (refl, refl, refl, omega arith)

shown_lt : (p : Phase) (v : ℕ) → v < 2 ^ 32 → shown p v < 2 ^ 32
shown_lt filled v h = h
shown_lt other v h = omega arith
shown_lt cleared v h = omega arith
shown_lt running v h = omega arith

poll_source_running :
    (p : Phase) (s : Source)
    → s.phase ≡ p
    → p ≡ running
    → (poll_source p s).1.phase ≡ polled_phase (poll_source p s).0
poll_source_running p s at e = rw e (ground (arith, at, e))

ramp-bytes :
    (p : ℕ) → bytes 4 (ramp_word p) ≡ ramp p ∷ ramp (p + 1) ∷ ramp (p + 2) ∷ ramp (p + 3) ∷ []
ramp-bytes p =
    bytes-word (ramp p) (ramp (p + 1)) (ramp (p + 2)) (ramp (p + 3)) (omega arith) (omega arith)
      (omega arith) (omega arith)

first : (w : ℕ → ℕ) (a p : ℕ) → ((j : ℕ) → w (a + j) ≡ ramp_word (p + j)) → w a ≡ ramp_word p
first w a p h =
    let e : a + 0 ≡ a = omega arith in
    let f : p + 0 ≡ p = omega arith in ap w (sym e) ∙ h 0 ∙ ap ramp_word f

steps :
    (p : ℕ)
    → ramp p ∷ ramp (p + 1) ∷ ramp (p + 2) ∷ ramp (p + 3) ∷ []
      ≡ ramp p ∷ ramp (p + 1) ∷ ramp (p + 1 + 1) ∷ ramp (p + 1 + 1 + 1) ∷ []
steps p =
    let e : p + 2 ≡ p + 1 + 1 = omega arith in
    let f : p + 3 ≡ p + 1 + 1 + 1 = omega arith in rw (e, f) refl

ramp_window :
    (w : ℕ → ℕ) (a p n : ℕ)
    → ((j : ℕ) → w (a + j) ≡ ramp_word (p + j))
    → held_bytes w a n ≡ next_bytes ramp p n
ramp_window w a p zero h = refl
ramp_window w a p (suc zero) h = ap (bytes 1) (first w a p h) ∙ ap (take 1) (ramp-bytes p)
ramp_window w a p (suc (suc zero)) h =
    ap (bytes 2) (first w a p h) ∙ ap (take 2) (ramp-bytes p ∙ steps p)
ramp_window w a p (suc (suc (suc zero))) h =
    ap (bytes 3) (first w a p h) ∙ ap (take 3) (ramp-bytes p ∙ steps p)
ramp_window w a p (suc (suc (suc (suc n)))) h =
    let e : p + 1 + 1 + 1 + 1 ≡ p + 4 = omega arith in
    let rest = ramp_window w (a + 4) (p + 4) n (λ j.
      let f : a + 4 + j ≡ a + (4 + j) = omega arith in
      let g : p + 4 + j ≡ p + (4 + j) = omega arith in rw (f, g) (h (4 + j))) in
    ap₂ (λ (x y : List ℕ). x ++ y) (ap (bytes 4) (first w a p h) ∙ ramp-bytes p ∙ steps p)
      (rest ∙ ap (λ (q : ℕ). next_bytes ramp q n) (sym e))

source_filled :
    (s : Source) (a : ℕ)
    → s.phase ≡ filled
    → 0x600 ≤ a
    → ((source.readl a s).0 ≡ miso s a)
      × ((source.readl a s).1.phase ≡ filled)
      × ((b : ℕ) → miso (source.readl a s).1 b ≡ miso s b)
source_filled s a full p =
    let beside : (a == 0xC) ≡ false = ground arith in
    rw beside (ap (λ q. shown q (miso s a)) full, full, λ b. refl)

source-IsReceiver :
    IsReceiver source spi miso ramp (λ s. s.phase) (λ s. s.clocked) (λ s. s.start) (λ s. s.len)
source-IsReceiver = record {
  read_position = λ s a. ground (arith, poll_source_keeps s.phase s);
  read_started = λ s a. ground (arith, poll_source_keeps s.phase s);
  read_asked = λ s a. ground (arith, poll_source_keeps s.phase s);
  read_lt = λ s a.
      ground (arith, poll_source_keeps s.phase s, shown_lt s.phase (miso s a) (ground arith));
  status_position = λ s v. refl;
  status_cleared = λ s. refl;
  read_cleared = λ s h. h;
  command_position = λ s v h. ground arith;
  command_started = λ s v h. ground arith;
  command_asked = λ s v h. ground arith;
  command_running = λ s v h c. ground (arith, ap started_phase c);
  read_running = λ s h. poll_source_running s.phase s refl h;
  filled_held = λ s h. ramp_window (miso s) 0x600 s.start s.len (λ j. ground arith);
  read_filled = λ s a h p q. source_filled s a h p;
}

abbrev rewound : Source
rewound = record { start = 0; len = 0; clocked = 0; left = 0; phase = other }

received : (fbiob_spi_xfer_rx source spi 515 rewound).0.0 ≡ none
unfolding fbiob_spi_xfer_rx rx_loop fbiob_spi_xfer_single_rx poll_xfer wait_till_xfer_done
    fbiob_spi_send_cmd command_word fbiob_bulk_read bit
received = refl

fbiob_spi_xfer_rx_receives_example :
    (fbiob_spi_xfer_rx source spi 515 rewound).0.1 ≡ next_bytes ramp 0 515
fbiob_spi_xfer_rx_receives_example =
    fbiob_spi_xfer_rx_receives source-IsReceiver 515 rewound received

abbrev flash : ℕ → SpiDevInfo
flash cs = record { max_speed_hz = 12500000; chip_select = cs }

abbrev settings : List SpiDevInfo → SpiData
settings infos = record {
  csr_offset = 0x1000;
  iobuf_offset = 0x2000;
  num_spidevs = 4;
  spidevs = infos;
}

-- The device at chip select 1 is refused.
abbrev answers : Answers
answers = record {
  got_host = true;
  got_csr = true;
  map_csr = some 0;
  got_iobuf = true;
  map_iobuf = some 0x400;
  register_controller = none;
  new_device = λ info. info.chip_select == 0;
}

-- The driver as it is compiled has room for one device.
creates_one :
    (fbiob_spi_probe (line 1) spidev_max answers (settings (flash 0 ∷ [])) quiet).0.1.registered ≡ 1
unfolding fbiob_spi_probe fbiob_spi_init_mmio fbiob_spi_init_clients create_clients
creates_one = refl

-- Of two devices the second is refused, and nothing stays.
fbiob_spi_probe_outcome_example :
    let ((ret, c), s') =
      fbiob_spi_probe (line 1) 2 answers (settings (flash 0 ∷ flash 1 ∷ [])) quiet in
    (ret ≢ undefined)
    × (c.registered ≡ devices_of 2 ret)
    × (fbiob_spi_remove c ≡ record c { spidevs = false ∷ false ∷ []; registered = 0 })
fbiob_spi_probe_outcome_example =
    fbiob_spi_probe_outcome (line 1) 2 answers (settings (flash 0 ∷ flash 1 ∷ [])) quiet refl

-- Two bytes each way.
abbrev exchange : SpiTransfer
exchange = record { len = 2; tx_buf = some (1 ∷ 2 ∷ []); rx_buf = true }

send_fails : (fbiob_spi_xfer_tx (line 2) spi (1 ∷ 2 ∷ []) quiet).0 ≡ some 5
unfolding fbiob_spi_xfer_tx tx_loop tx_chunk poll_xfer wait_till_xfer_done fbiob_spi_send_cmd
    command_word fbiob_bulk_write
send_fails = refl
