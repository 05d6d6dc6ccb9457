-- ===== src/Spi.antt =====
-- kmods/fboss_iob_spi.c: the SPI controller of an FPGA, on the registers of its block and its
-- buffers. Here the control of the controller and the transfers; `Spi.Probe` sets it up.
pub mod Probe
pub mod Command
pub mod Transmit
pub mod Receive
pub mod Outcome
mod Tests
use fboss_bsp_kmods.Base.{
  ℕ, zero, suc, ◌+◌, ◌-◌, ◌*◌, ◌^◌, Bool, true, false, Option, none, some, List, [], ◌∷◌, ◌++◌,
}
use fboss_bsp_kmods.Base.{if◌then◌else◌, ltb, ◌==◌, min, length, take, drop, bit_and, bit_or}
use fboss_bsp_kmods.Bits.{u32, not_u32, test_bits}
use fboss_bsp_kmods.Kernel.{Ret, ok, err, undefined}
use fboss_bsp_kmods.Kernel.Errno.{eio, etimedout}
use fboss_bsp_kmods.Mmio.{Mmio, fbiob_bulk_write, fbiob_bulk_read}

abbrev pub reg_timing : ℕ
reg_timing = 0

abbrev pub reg_func_ctl : ℕ
reg_func_ctl = 0x4

abbrev pub reg_desc_cmd : ℕ
reg_desc_cmd = 0x8

abbrev pub reg_desc_sts : ℕ
reg_desc_sts = 0xC

-- The bits of the registers, as masks.
abbrev pub ctl_cpol : ℕ
ctl_cpol = 2 ^ 15

abbrev pub ctl_sample_delay_mask : ℕ
ctl_sample_delay_mask = 0x7000

abbrev pub ctl_cpha : ℕ
ctl_cpha = 2 ^ 11

abbrev pub ctl_clk_div_mask : ℕ
ctl_clk_div_mask = 0xFF

abbrev pub ctl_rst : ℕ
ctl_rst = 1

abbrev pub manual_cs_en : ℕ
manual_cs_en = 2

abbrev pub desc_valid : ℕ
desc_valid = 2 ^ 31

abbrev pub desc_cs_man_act : ℕ
desc_cs_man_act = 2 ^ 30

abbrev pub desc_data_len_mask : ℕ
desc_data_len_mask = (2 ^ 9 - 1) * 2 ^ 8

-- The interrupts of an error and of the end, both in DESC_CMD and in DESC_STS.
abbrev pub desc_ints : ℕ
desc_ints = 3

abbrev pub max_xfer_len : ℕ
max_xfer_len = 512

abbrev pub miso_buf_offset : ℕ
miso_buf_offset = 0x200

-- A loop `do … while (retry--)` from 30 on runs its body once more than that.
abbrev pub polls : ℕ
polls = 31

-- SPI_CPHA and SPI_CPOL of linux/spi/spi.h.
abbrev pub spi_cpha : ℕ
spi_cpha = 1

abbrev pub spi_cpol : ℕ
spi_cpol = 2

-- Where the block and the buffers of a `struct fbiob_spi_bus` are mapped.
pub record SpiBus : Type 0 where
  pub mmio_csr : ℕ
  pub mmio_mosi : ℕ
  pub mmio_miso : ℕ

-- `struct spi_transfer`. `tx_buf` is NULL or the `len` bytes to send; `rx_buf` is NULL or not.
pub record SpiTransfer : Type 0 where
  pub len : ℕ
  pub tx_buf : Option (List ℕ)
  pub rx_buf : Bool

-- The word that `fbiob_spi_setup_xfer` makes of the timing register.
pub timing_word : (mode val : ℕ) → ℕ
timing_word mode val =
    let polarity =
      if test_bits mode spi_cpol then bit_or val ctl_cpol else bit_and val (not_u32 ctl_cpol) in
    let phase =
      if test_bits mode spi_cpha
      then bit_or polarity ctl_cpha
      else bit_and polarity (not_u32 ctl_cpha) in
    bit_or (bit_or phase (bit_and 1 ctl_clk_div_mask)) (bit_and (2 * 2 ^ 12) ctl_sample_delay_mask)

-- The word that `fbiob_spi_send_cmd` makes of the command register.
pub command_word : (xfer_len val : ℕ) → ℕ
command_word xfer_len val =
    let armed = bit_and (bit_or val desc_valid) (not_u32 desc_ints) in
    let cleared = bit_and armed (not_u32 desc_data_len_mask) in
    if xfer_len == max_xfer_len
    then cleared
    else bit_or cleared (bit_and (u32 (xfer_len * 2 ^ 8)) desc_data_len_mask)

abbrev pub ret_of : Option ℕ → Ret (Unit {0})
ret_of none = ok tt
ret_of (some e) = err e

module _ {S : Type 0} (io : Mmio S) (bus : SpiBus) where
  abbrev pub spi_csr_read : ℕ → S → ℕ × S
  spi_csr_read offset s = io.readl (bus.mmio_csr + offset) s

  abbrev pub spi_csr_write : ℕ → ℕ → S → S
  spi_csr_write offset val s = io.writel (bus.mmio_csr + offset) val s

  abbrev pub spi_iobuf_read : ℕ → S → List ℕ × S
  spi_iobuf_read size s = fbiob_bulk_read io bus.mmio_miso size s

  abbrev pub spi_iobuf_write : List ℕ → S → S
  spi_iobuf_write buf s = fbiob_bulk_write io bus.mmio_mosi buf s

  pub fbiob_spi_init_hw : S → S
  fbiob_spi_init_hw s =
      let (val, s') = spi_csr_read reg_func_ctl (spi_csr_write reg_func_ctl ctl_rst s) in
      spi_csr_write reg_func_ctl (bit_or val manual_cs_en) s'

  pub fbiob_spi_setup_xfer : ℕ → S → S
  fbiob_spi_setup_xfer mode s =
      let (val, s') = spi_csr_read reg_timing s in
      spi_csr_write reg_timing (timing_word mode val) s'

  pub fbiob_spi_set_cs : Bool → S → S
  fbiob_spi_set_cs level s =
      let (val, s') = spi_csr_read reg_desc_cmd s in
      spi_csr_write reg_desc_cmd
        (if level then bit_and val (not_u32 desc_cs_man_act) else bit_or val desc_cs_man_act) s'

  -- The loop of `wait_till_xfer_done`, with the polls that are left.
  pub poll_xfer : ℕ → S → Option ℕ × S
  poll_xfer zero s = (some etimedout, s)
  poll_xfer (suc retry) s =
      let (val, s') = spi_csr_read reg_desc_sts s in
      let rest = poll_xfer retry s' in
      if test_bits val 2 then (some eio, s') else if test_bits val 1 then (none, s') else rest

  pub wait_till_xfer_done : S → Option ℕ × S
  wait_till_xfer_done s = poll_xfer polls s

  -- It always returns 0.
  pub fbiob_spi_send_cmd : ℕ → S → S
  fbiob_spi_send_cmd xfer_len s =
      let (val, s') = spi_csr_read reg_desc_cmd s in
      spi_csr_write reg_desc_cmd (command_word xfer_len val) s'

  abbrev pub clear_status : S → S
  clear_status s = spi_csr_write reg_desc_sts desc_ints s

  -- One round of the loop of `fbiob_spi_xfer_tx`.
  pub tx_chunk : List ℕ → S → Option ℕ × S
  tx_chunk chunk s =
      wait_till_xfer_done
        (fbiob_spi_send_cmd (length chunk) (spi_iobuf_write chunk (clear_status s)))

  -- The loop, on what is left of the buffer. Each round takes at least one byte, so that the length
  -- of the buffer is fuel enough.
  pub tx_loop : ℕ → List ℕ → S → Option ℕ × S
  tx_loop fuel [] s = (none, s)
  tx_loop zero (b ∷ buf) s = (none, s)
  tx_loop (suc fuel) (b ∷ buf) s =
      let (ret, s') = tx_chunk (take max_xfer_len (b ∷ buf)) s in
      let rest = tx_loop fuel (drop max_xfer_len (b ∷ buf)) s' in
      elim ret [ some e ↦ (some e, s') | none ↦ rest ]

  -- `xfer_len` is an `int`, which a length of 2 ^ 31 or more turns negative.
  pub fbiob_spi_xfer_tx : List ℕ → S → Option ℕ × S
  fbiob_spi_xfer_tx txbuf s =
      if ltb (length txbuf) (2 ^ 31) then tx_loop (length txbuf) txbuf s else (none, s)

  -- The bytes that `fbiob_spi_xfer_single_rx` puts into the buffer, of which `nleft` are to come.
  pub fbiob_spi_xfer_single_rx : ℕ → S → Ret (List ℕ) × S
  fbiob_spi_xfer_single_rx nleft s =
      let nrequest = min nleft max_xfer_len in
      let (ret, s') = wait_till_xfer_done (fbiob_spi_send_cmd nrequest s) in
      let (received, s'') = spi_iobuf_read nrequest s' in
      elim ret [ some e ↦ (err e, s') | none ↦ (ok received, s'') ]

  -- The loop of `fbiob_spi_xfer_rx`, with the number of bytes to come. Each round takes at least one
  -- byte. The result comes with the bytes that the buffer got.
  pub rx_loop : ℕ → ℕ → S → (Option ℕ × List ℕ) × S
  rx_loop fuel zero s = ((none, []), s)
  rx_loop zero (suc nleft) s = ((none, []), s)
  rx_loop (suc fuel) (suc nleft) s =
      let (ret, s') = fbiob_spi_xfer_single_rx (suc nleft) (clear_status s) in
      let ((ret', received'), s'') = rx_loop fuel (suc nleft - max_xfer_len) s' in
      elim ret [
        | err e ↦ ((some e, []), s')
        | undefined ↦ ((none, []), s')
        | ok received ↦ ((ret', received ++ received'), s'')
      ]

  pub fbiob_spi_xfer_rx : ℕ → S → (Option ℕ × List ℕ) × S
  fbiob_spi_xfer_rx len s = rx_loop len len s

  -- The first part of `fbiob_spi_xfer_one`; `ret` is not initialized.
  abbrev pub send_part : Option (List ℕ) → S → Ret (Unit {0}) × S
  send_part none s = (undefined, s)
  send_part (some txbuf) s = let (ret, s') = fbiob_spi_xfer_tx txbuf s in (ret_of ret, s')

  -- The result with the bytes received. What is received replaces the result of what was sent.
  unfoldable pub fbiob_spi_xfer_one : SpiTransfer → S → (Ret (Unit {0}) × List ℕ) × S
  fbiob_spi_xfer_one xfer s =
      let (ret, s') = send_part xfer.tx_buf s in
      let ((ret', received), s'') = fbiob_spi_xfer_rx xfer.len s' in
      if xfer.rx_buf then ((ret_of ret', received), s'') else ((ret, []), s')
