-- ===== src/I2c.antt =====
-- kmods/fboss_iob_i2c.c: the I2C controller of an FPGA, on the registers of its block.
pub mod Frame
pub mod Xfer
pub mod Control
pub mod Probe
mod Tests
use fboss_bsp_kmods.Base.{
  ℕ, zero, suc, ◌+◌, ◌-◌, ◌*◌, ◌%◌, ◌^◌, Bool, true, false, not, ◌||◌, List, [], ◌∷◌, ◌++◌,
}
use fboss_bsp_kmods.Base.{
  Option, none, some, if◌then◌else◌, ltb, ◌==◌, length, take, drop, min, bit_and, bit_or,
}
use fboss_bsp_kmods.Bits.{u8, not_u32, test_bits}
use fboss_bsp_kmods.Kernel.{Ret, ok, err}
use fboss_bsp_kmods.Kernel.Errno.{einval, ebusy, eio, etimedout}
use fboss_bsp_kmods.Mmio.{Mmio, fbiob_bulk_write, fbiob_bulk_read}

abbrev pub reg_func_ctrl : ℕ
reg_func_ctrl = 0

abbrev pub reg_timing_cfg : ℕ
reg_timing_cfg = 0x4

abbrev pub reg_intr_sts : ℕ
reg_intr_sts = 0x10

abbrev pub reg_cmd_sts : ℕ
reg_cmd_sts = 0x14

abbrev pub reg_buf_ctrl : ℕ
reg_buf_ctrl = 0x1C

abbrev pub iobuf_offset : ℕ
iobuf_offset = 0x80

abbrev pub iobuf_size : ℕ
iobuf_size = 128

-- The bits of the registers, as masks.
abbrev pub en_master_func : ℕ
en_master_func = 1

abbrev pub bus_busy_sts : ℕ
bus_busy_sts = 2 ^ 16

abbrev pub buf_mem_page_sel : ℕ
buf_mem_page_sel = 64

-- 35000 / 100 of FBOSS_I2C_SMBUS_MAX_TIMEOUT_US and FBIOB_I2C_XFER_POLL_TIME_US; a loop
-- `do … while (retry--)` runs its body once more than that.
abbrev pub polls : ℕ
polls = 351

pub data Opcode : Type 0 where
  bus_read bus_write : Opcode

-- `enum fbiob_i2c_state`.
pub data BusState : Type 0 where
  state_done state_error state_start state_stop : BusState

-- `struct i2c_msg`. `buf` is NULL or the bytes to send; for a read they are not looked at.
pub record Msg : Type 0 where
  pub addr : ℕ
  pub is_read : Bool
  pub recv_len : Bool
  pub pec : Bool
  pub len : ℕ
  pub buf : Option (List ℕ)

pub same_addr : ℕ → List Msg → Bool
same_addr addr [] = true
same_addr addr (m ∷ msgs) =
    let rest = same_addr addr msgs in
    elim m.buf [ none ↦ false | some b ↦ if addr == m.addr then rest else false ]

pub check_msg_params : List Msg → Option ℕ
check_msg_params [] = some einval
check_msg_params (m ∷ msgs) =
    if ltb 0x7f m.addr
    then some einval
    else if same_addr m.addr (m ∷ msgs)
    then none
    else some einval

-- The divisor for a frequency, and the frequency that is kept.
pub timing_of : ℕ → ℕ × ℕ
timing_of bus_freq_hz =
    if bus_freq_hz == 400000
    then (0x18, 400000)
    else if bus_freq_hz == 100000
    then (0x63, 100000)
    else (0x63, 100000)

-- `struct fbiob_i2c_bus` over a state of the hardware.
pub record Bus (S : Type 0) : Type 0 where
  pub hw : S
  pub state : BusState
  pub bus_freq_hz : ℕ

module _ {S : Type 0} (io : Mmio S) where
  abbrev pub csr_read : ℕ → Bus S → ℕ × Bus S
  csr_read offset bus = let (val, s) = io.readl offset bus.hw in (val, record bus { hw = s })

  abbrev pub csr_write : ℕ → ℕ → Bus S → Bus S
  csr_write offset val bus = record bus { hw = io.writel offset val bus.hw }

  pub fbiob_i2c_reset : Bus S → Bus S
  fbiob_i2c_reset bus =
      let (val, bus') = csr_read reg_func_ctrl bus in
      let off = bit_and val (not_u32 en_master_func) in
      csr_write reg_func_ctrl (bit_or off en_master_func) (csr_write reg_func_ctrl off bus')

  pub fbiob_i2c_set_timing : Bus S → Bus S
  fbiob_i2c_set_timing bus =
      let (div, freq) = timing_of bus.bus_freq_hz in
      let (val, bus') = csr_read reg_timing_cfg (record bus { bus_freq_hz = freq }) in
      csr_write reg_timing_cfg (bit_or (bit_and val (not_u32 0xFF)) div) bus'

  pub fbiob_i2c_clean_intr_status : Bus S → Bus S
  fbiob_i2c_clean_intr_status bus = csr_write reg_intr_sts 15 bus

  pub fbiob_i2c_check_busy : Bus S → Option ℕ × Bus S
  fbiob_i2c_check_busy bus =
      let (val, bus') = csr_read reg_cmd_sts bus in
      ((if test_bits val bus_busy_sts then some ebusy else none), bus')

  -- The loop of `wait_bus_for_free`, with the polls that are left.
  pub poll_free : ℕ → Bus S → Option ℕ × Bus S
  poll_free zero bus = (some ebusy, bus)
  poll_free (suc n) bus =
      let (busy, bus') = fbiob_i2c_check_busy bus in
      let rest = poll_free n bus' in elim busy [ none ↦ (none, bus') | some e ↦ rest ]

  pub wait_bus_for_free : Bus S → Option ℕ × Bus S
  wait_bus_for_free bus = poll_free polls bus

  pub fbiob_i2c_stop : Bus S → Bus S
  fbiob_i2c_stop bus =
      let (val, bus') = csr_read reg_cmd_sts bus in csr_write reg_cmd_sts (bit_or val 8) bus'

  abbrev pub done_sts : Opcode → ℕ
  done_sts bus_read = 4
  done_sts bus_write = 1

  -- The loop of `wait_till_xfer_done`, with the polls that are left.
  pub poll_done : ℕ → Opcode → Bus S → Option ℕ × Bus S
  poll_done zero opcode bus = (some etimedout, record bus { state = state_stop })
  poll_done (suc n) opcode bus =
      let (val, bus') = csr_read reg_intr_sts bus in
      let rest = poll_done n opcode bus' in
      if test_bits val 2
      then (some eio, fbiob_i2c_stop (record bus' { state = state_error }))
      else if test_bits val (done_sts opcode)
      then (none, record bus' { state = state_done })
      else rest

  pub wait_till_xfer_done : Opcode → Bus S → Option ℕ × Bus S
  wait_till_xfer_done opcode bus = poll_done polls opcode bus

  abbrev pub iobuf_write : List ℕ → Bus S → Bus S
  iobuf_write buf bus = record bus { hw = fbiob_bulk_write io iobuf_offset buf bus.hw }

  abbrev pub iobuf_read : ℕ → Bus S → List ℕ × Bus S
  iobuf_read size bus =
      let (buf, s) = fbiob_bulk_read io iobuf_offset size bus.hw in (buf, record bus { hw = s })

  -- The second part of `fbiob_i2c_fill_tx_buf`: what is left of the payload, in the high page.
  pub fill_high_page : ℕ → List ℕ → Bus S → Bus S
  fill_high_page reg_csr [] bus = bus
  fill_high_page reg_csr (b ∷ left) bus =
      iobuf_write (b ∷ left) (csr_write reg_buf_ctrl (bit_or reg_csr buf_mem_page_sel) bus)

  pub fbiob_i2c_fill_tx_buf : ℕ → List ℕ → Bus S → Option ℕ × Bus S
  fbiob_i2c_fill_tx_buf i2c_addr payload bus =
      if ltb 255 (length payload)
      then (some einval, bus)
      else (let reg_csr =
            bit_and (bit_and (length payload * 2 ^ 8) 0xFF00) (not_u32 buf_mem_page_sel) in
          let low =
            iobuf_write (i2c_addr ∷ take 127 payload) (csr_write reg_buf_ctrl reg_csr bus) in
          (none, fill_high_page reg_csr (drop 127 payload) low))
