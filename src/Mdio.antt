-- ===== src/Mdio.antt =====
-- kmods/fboss_iob_mdio_aux.c: the MDIO controller of an FPGA, on the registers of its block.
pub mod Cdev
pub mod Probe
pub mod Wait
pub mod Command
pub mod Deferred
pub mod Phy
pub mod Ioctl
mod Tests
use fboss_bsp_kmods.Base.{
  ℕ, zero, suc, ◌+◌, ◌*◌, ◌/◌, ◌%◌, ◌^◌, Bool, true, false, Option, none, some,
}
use fboss_bsp_kmods.Base.{if◌then◌else◌, ◌==◌}
use fboss_bsp_kmods.Kernel.{Ret, ok, err, Io}
use fboss_bsp_kmods.Kernel.Errno.{eio, ebusy, etimedout}
use fboss_bsp_kmods.Field.{field_of}
use fboss_bsp_kmods.Mmio.{Mmio}

abbrev pub reg_cmd : ℕ
reg_cmd = 0x4

abbrev pub reg_wr_dat : ℕ
reg_wr_dat = 0x8

abbrev pub reg_rd_dat : ℕ
reg_rd_dat = 0xC

abbrev pub reg_sts : ℕ
reg_sts = 0x10

abbrev pub reg_intr_msk : ℕ
reg_intr_msk = 0x14

abbrev pub reg_rst : ℕ
reg_rst = 0x1C

-- 1000 / 20 of FBOSS_MDIO_MAX_TIMEOUT_US and FBIOB_MDIO_POLL_TIME_US; the loop
-- `do … while (retry--)` runs its body once more than that.
abbrev pub polls : ℕ
polls = 51

-- `enum fbiob_mdio_opcode`, as the bit `rw_7`.
abbrev pub bus_write : ℕ
bus_write = 0

abbrev pub bus_read : ℕ
bus_read = 1

-- `enum fbiob_mdio_state`.
pub data MdioState : Type 0 where
  state_init state_ready state_busy : MdioState

abbrev pub is_ready : MdioState → Bool
is_ready state_init = false
is_ready state_ready = true
is_ready state_busy = false

-- `struct fbiob_mdio_bus` over a state of the hardware.
pub record MdioBus (S : Type 0) : Type 0 where
  pub hw : S
  pub state : MdioState

-- An assignment to a bit-field of `w` bits from bit `lo` on, of a word `u`. The compiler lays the
-- fields of a word out from its lowest bit up. Reading one is `field_of lo w u`.
abbrev pub put_field : (lo w value u : ℕ) → ℕ
put_field lo w value u = u % 2 ^ lo + value % 2 ^ w * 2 ^ lo + u / 2 ^ (lo + w) * 2 ^ (lo + w)

-- `union fbiob_mdio_sts`: `done_0` and `err_1`.
abbrev pub sts_done : ℕ → Bool
sts_done u = field_of 0 1 u == 1

abbrev pub sts_err : ℕ → Bool
sts_err u = field_of 1 1 u == 1

-- The assignments to the fields of `union fbiob_mdio_cmd`, in their order.
pub command : (addr devad regnum op u : ℕ) → ℕ
command addr devad regnum op u =
    put_field 7 1 op (put_field 16 16 regnum (put_field 0 5 devad (put_field 8 5 addr u)))

module _ {S : Type 0} (io : Mmio S) where
  abbrev pub csr_read : ℕ → MdioBus S → ℕ × MdioBus S
  csr_read offset bus = let (val, s) = io.readl offset bus.hw in (val, record bus { hw = s })

  abbrev pub csr_write : ℕ → ℕ → MdioBus S → MdioBus S
  csr_write offset val bus = record bus { hw = io.writel offset val bus.hw }

  pub fbiob_mdio_clean_status : MdioBus S → MdioBus S
  fbiob_mdio_clean_status bus =
      let (sts, bus') = csr_read reg_sts bus in
      csr_write reg_sts (put_field 1 1 1 (put_field 0 1 1 sts)) bus'

  -- The loop of `wait_bus_ready`, with the polls that are left.
  pub poll_ready : ℕ → MdioBus S → Option ℕ × MdioBus S
  poll_ready zero bus = (some ebusy, bus)
  poll_ready (suc retry) bus =
      let (sts, bus') = csr_read reg_sts bus in
      let rest = poll_ready retry bus' in
      if is_ready bus.state
      then (none, bus)
      else if sts_err sts
      then (some eio, bus')
      else if sts_done sts
      then (none, bus')
      else rest

  pub wait_bus_ready : MdioBus S → Option ℕ × MdioBus S
  wait_bus_ready bus = poll_ready polls bus

  pub fbiob_mdio_reset : MdioBus S → Option ℕ × MdioBus S
  fbiob_mdio_reset bus =
      let (rst, bus') = csr_read reg_rst bus in
      let (rst', bus'') = csr_read reg_rst (csr_write reg_rst (put_field 0 1 1 rst) bus') in
      let (msk, bus''') = csr_read reg_intr_msk bus'' in
      let masked = csr_write reg_intr_msk (put_field 1 1 0 (put_field 0 1 0 msk)) bus''' in
      if field_of 0 1 rst' == 1
      then (some etimedout, bus'')
      else (none, record masked { state = state_ready })

  -- The assignments of a command, and its start.
  abbrev pub start : (addr devad regnum op : ℕ) → MdioBus S → MdioBus S
  start addr devad regnum op bus =
      let (cmd, bus') = csr_read reg_cmd bus in
      csr_write reg_cmd (command addr devad regnum op cmd) bus'

  -- The end of a read: the status of its command, and the data.
  pub finish_read : MdioBus S → Ret ℕ × MdioBus S
  finish_read bus =
      let (ret, bus') = wait_bus_ready bus in
      let ended = record (fbiob_mdio_clean_status bus') { state = state_ready } in
      let (rd_data, bus'') = csr_read reg_rd_dat ended in
      elim ret [ some e ↦ (err e, ended) | none ↦ (ok (field_of 0 16 rd_data), bus'') ]

  -- A read from the result of its first wait on.
  abbrev pub read_waited : (addr devad regnum : ℕ) → Option ℕ × MdioBus S → Ret ℕ × MdioBus S
  read_waited addr devad regnum (some e, bus) =
      (err e, record (fbiob_mdio_clean_status bus) { state = state_ready })
  read_waited addr devad regnum (none, bus) = finish_read (
      start addr devad regnum bus_read
        (record (fbiob_mdio_clean_status bus) { state = state_busy }))

  pub fbiob_mdio_read_c45 : (addr devad regnum : ℕ) → Io (MdioBus S) ℕ
  fbiob_mdio_read_c45 addr devad regnum bus = read_waited addr devad regnum (wait_bus_ready bus)

  -- A write from the result of its wait on. `debug` is what the upper half of `wr_data`, a variable
  -- that is not initialized, holds.
  abbrev pub write_waited :
      (debug addr devad regnum val : ℕ) → Option ℕ × MdioBus S → Ret (Unit {0}) × MdioBus S
  write_waited debug addr devad regnum val (some e, bus) =
      (err e, record (fbiob_mdio_clean_status bus) { state = state_ready })
  write_waited debug addr devad regnum val (none, bus) =
      let wr_data = put_field 0 16 val (debug % 2 ^ 16 * 2 ^ 16) in
      (
        ok tt,
        start addr devad regnum bus_write (
            csr_write reg_wr_dat wr_data
              (record (fbiob_mdio_clean_status bus) { state = state_busy })),
      )

  pub fbiob_mdio_write_c45 : (debug addr devad regnum val : ℕ) → Io (MdioBus S) (Unit {0})
  fbiob_mdio_write_c45 debug addr devad regnum val bus =
      write_waited debug addr devad regnum val (wait_bus_ready bus)

  -- `reset_bus_store`: `count` or the code of the reset.
  pub reset_bus_store : ℕ → Io (MdioBus S) ℕ
  reset_bus_store count bus =
      let (ret, bus') = fbiob_mdio_reset bus in
      elim ret [ none ↦ (ok count, bus') | some e ↦ (err e, bus') ]
