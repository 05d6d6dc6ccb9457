-- ===== src/Mdio/Command.antt =====
-- What a command of the MDIO controller holds, field by field, and what a write puts into the
-- registers.
use fboss_bsp_kmods.Base.{ℕ, ◌%◌, ◌^◌, ◌<◌, ◌≡◌, ◌≢◌, arith, refl, none, ap, ◌∙◌, ◌*◌}
use fboss_bsp_kmods.Kernel.{ok}
use fboss_bsp_kmods.Field.{field_of}
use fboss_bsp_kmods.Mmio.{Mmio}
use fboss_bsp_kmods.Mmio.Kept.{IsKept}
use fboss_bsp_kmods.Mdio.{MdioBus, state_ready, state_busy, put_field, command, bus_write, bus_read}
use fboss_bsp_kmods.Base.{zero, suc}
use fboss_bsp_kmods.Mdio.{reg_rd_dat, reg_cmd, reg_wr_dat, reg_sts, csr_read, csr_write, start}
use fboss_bsp_kmods.Mdio.{fbiob_mdio_clean_status, poll_ready, wait_bus_ready, finish_read}
use fboss_bsp_kmods.Mdio.{read_waited, write_waited, fbiob_mdio_read_c45, fbiob_mdio_write_c45}

-- The fields of a command word, the two reserved ones included.
pub record CommandFields : Type 0 where
  pub devad : ℕ
  pub reserved_5_6 : ℕ
  pub op : ℕ
  pub phyad : ℕ
  pub reserved_13_15 : ℕ
  pub reg : ℕ

abbrev pub fields_of : ℕ → CommandFields
fields_of u = record {
  devad = field_of 0 5 u;
  reserved_5_6 = field_of 5 2 u;
  op = field_of 7 1 u;
  phyad = field_of 8 5 u;
  reserved_13_15 = field_of 13 3 u;
  reg = field_of 16 16 u;
}

put_phyad : (v u : ℕ) → fields_of (put_field 8 5 v u) ≡ record (fields_of u) { phyad = v % 2 ^ 5 }
put_phyad v u = ground arith

put_devad : (v u : ℕ) → fields_of (put_field 0 5 v u) ≡ record (fields_of u) { devad = v % 2 ^ 5 }
put_devad v u = ground arith

put_reg : (v u : ℕ) → fields_of (put_field 16 16 v u) ≡ record (fields_of u) { reg = v % 2 ^ 16 }
put_reg v u = ground arith

put_rw : (v u : ℕ) → fields_of (put_field 7 1 v u) ≡ record (fields_of u) { op = v % 2 ^ 1 }
put_rw v u = ground arith

-- The reserved fields stay, and the others are the arguments cut down to their widths.
pub command_fields :
    (addr devad regnum op u : ℕ)
    → fields_of (command addr devad regnum op u) ≡ record (fields_of u) {
      devad = devad % 32;
      op = op % 2;
      phyad = addr % 32;
      reg = regnum % 65536;
    }
unfolding command
command_fields addr devad regnum op u =
    let u1 = put_field 8 5 addr u in
    let u2 = put_field 0 5 devad u1 in
    let u3 = put_field 16 16 regnum u2 in
    ground (arith, put_phyad addr u, put_devad devad u1, put_reg regnum u2, put_rw op u3)

-- A register that keeps what is written to it is left alone by the accesses to the status.
module _ {S : Type 0} {io : Mmio S} {a : ℕ} {held : S → ℕ} (kept : IsKept io a held)
    (ne : reg_sts ≢ a) where
  pub clean_status_kept : (bus : MdioBus S) → held (fbiob_mdio_clean_status io bus).hw ≡ held bus.hw
  unfolding fbiob_mdio_clean_status
  clean_status_kept bus =
      let (sts, s) = io.readl reg_sts bus.hw in
      ground (
        arith,
        kept.write_other s reg_sts (put_field 1 1 1 (put_field 0 1 1 sts)) ne,
        kept.read_kept bus.hw reg_sts,
      )

  poll_ready_kept : (fuel : ℕ) (bus : MdioBus S) → held (poll_ready io fuel bus).1.hw ≡ held bus.hw
  unfolding poll_ready
  poll_ready_kept zero bus = refl
  poll_ready_kept (suc fuel) bus =
      let bus' = (csr_read io reg_sts bus).1 in
      ground (arith, kept.read_kept bus.hw reg_sts, poll_ready_kept fuel bus')

  pub wait_bus_ready_kept : (bus : MdioBus S) → held (wait_bus_ready io bus).1.hw ≡ held bus.hw
  unfolding wait_bus_ready
  wait_bus_ready_kept bus = poll_ready_kept 51 bus

  pub finish_read_kept : (bus : MdioBus S) → held (finish_read io bus).1.hw ≡ held bus.hw
  unfolding finish_read
  finish_read_kept bus =
      let bus' = (wait_bus_ready io bus).1 in
      let ended = fbiob_mdio_clean_status io bus' in
      ground
        (arith, wait_bus_ready_kept bus, clean_status_kept bus', kept.read_kept ended.hw reg_rd_dat)

module _ {S : Type 0} (io : Mmio S) where
  -- A bus that is ready is not waited for.
  pub wait_ready : (bus : MdioBus S) → bus.state ≡ state_ready → wait_bus_ready io bus ≡ (none, bus)
  unfolding wait_bus_ready poll_ready
  wait_ready bus h = ground arith

  write_ready :
      (debug addr devad regnum val : ℕ) (bus : MdioBus S)
      → bus.state ≡ state_ready
      → fbiob_mdio_write_c45 io debug addr devad regnum val bus
        ≡ write_waited io debug addr devad regnum val (none, bus)
  unfolding fbiob_mdio_write_c45
  write_ready debug addr devad regnum val bus h =
      ap (write_waited io debug addr devad regnum val) (wait_ready bus h)

  pub read_ready :
      (addr devad regnum : ℕ) (bus : MdioBus S)
      → bus.state ≡ state_ready
      → fbiob_mdio_read_c45 io addr devad regnum bus ≡ read_waited io addr devad regnum (none, bus)
  unfolding fbiob_mdio_read_c45
  read_ready addr devad regnum bus h = ap (read_waited io addr devad regnum) (wait_ready bus h)

  finish_read_state : (bus : MdioBus S) → (finish_read io bus).1.state ≡ state_ready
  unfolding finish_read
  finish_read_state bus = ground arith

  finish_read_small : (bus : MdioBus S) (v : ℕ) → (finish_read io bus).0 ≡ ok v → v < 65536
  unfolding finish_read
  finish_read_small bus v e = ground arith

  start_other :
      {a : ℕ} {held : S → ℕ}
      → IsKept io a held
      → reg_cmd ≢ a
      → (addr devad regnum op : ℕ) (bus : MdioBus S)
      → held (start io addr devad regnum op bus).hw ≡ held bus.hw
  start_other kept ne addr devad regnum op bus =
      let (u, s) = io.readl reg_cmd bus.hw in
      kept.write_other s reg_cmd (command addr devad regnum op u) ne ∙ kept.read_kept bus.hw reg_cmd

  module _ (cmd wr_dat : S → ℕ) (cmd_kept : IsKept io reg_cmd cmd)
      (dat_kept : IsKept io reg_wr_dat wr_dat) where
    start_cmd :
        (addr devad regnum op : ℕ) (bus : MdioBus S)
        → fields_of (cmd (start io addr devad regnum op bus).hw) ≡ record (fields_of (cmd bus.hw)) {
          devad = devad % 32;
          op = op % 2;
          phyad = addr % 32;
          reg = regnum % 65536;
        }
    start_cmd addr devad regnum op bus =
        let (u, s) = io.readl reg_cmd bus.hw in
        let held : u ≡ cmd bus.hw = cmd_kept.read_own bus.hw in
        let now = cmd_kept.write_own s (command addr devad regnum op u) in
        rw (now, command_fields, held) refl

    -- On a controller whose command and data registers keep what is written, a write that starts
    -- in the state READY returns 0 and leaves the state BUSY, with the addresses cut down to
    -- their fields and the reserved bits kept in the command, the lower 16 bits of the value in
    -- the data, and in the upper half of the data what the uninitialised variable held.
    pub fbiob_mdio_write_c45_ready :
        (debug addr devad regnum val : ℕ) (bus : MdioBus S)
        → bus.state ≡ state_ready
        → let (ret, bus') = fbiob_mdio_write_c45 io debug addr devad regnum val bus in
          (ret ≡ ok tt)
          × (bus'.state ≡ state_busy)
          × (fields_of (cmd bus'.hw) ≡ record (fields_of (cmd bus.hw)) {
            devad = devad % 32;
            op = 0;
            phyad = addr % 32;
            reg = regnum % 65536;
          })
          × (field_of 0 16 (wr_dat bus'.hw) ≡ val % 65536)
          × (field_of 16 16 (wr_dat bus'.hw) ≡ debug % 65536)
    fbiob_mdio_write_c45_ready debug addr devad regnum val bus h =
        let cleaned = fbiob_mdio_clean_status io bus in
        let wr_data = put_field 0 16 val (debug % 2 ^ 16 * 2 ^ 16) in
        let loaded = csr_write io reg_wr_dat wr_data (record cleaned { state = state_busy }) in
        let before : cmd loaded.hw ≡ cmd bus.hw =
          cmd_kept.write_other cleaned.hw reg_wr_dat wr_data (omega arith)
          ∙ clean_status_kept cmd_kept (omega arith) bus in
        let carried : wr_dat (start io addr devad regnum bus_write loaded).hw ≡ wr_data =
          start_other dat_kept (omega arith) addr devad regnum bus_write loaded
          ∙ dat_kept.write_own cleaned.hw wr_data in
        rw (write_ready debug addr devad regnum val bus h) (
          refl,
          refl,
          rw (start_cmd addr devad regnum bus_write loaded, before) refl,
          ground (arith, carried),
          ground (arith, carried),
        )

    -- A read that starts in the state READY ends in it, sends its command with the addresses cut down
    -- to their fields and the reserved bits kept, leaves the data to write, and returns 16 bits.
    pub fbiob_mdio_read_c45_ready :
        (addr devad regnum : ℕ) (bus : MdioBus S)
        → bus.state ≡ state_ready
        → let (ret, bus') = fbiob_mdio_read_c45 io addr devad regnum bus in
          (bus'.state ≡ state_ready)
          × (fields_of (cmd bus'.hw) ≡ record (fields_of (cmd bus.hw)) {
            devad = devad % 32;
            op = 1;
            phyad = addr % 32;
            reg = regnum % 65536;
          })
          × (wr_dat bus'.hw ≡ wr_dat bus.hw)
          × ((v : ℕ) → ret ≡ ok v → v < 65536)
    fbiob_mdio_read_c45_ready addr devad regnum bus h =
        let cleaned = record (fbiob_mdio_clean_status io bus) { state = state_busy } in
        let started = start io addr devad regnum bus_read cleaned in
        let before = clean_status_kept cmd_kept (omega arith) bus in
        rw (read_ready addr devad regnum bus h) (
          finish_read_state started,
          rw
              (
                finish_read_kept cmd_kept (omega arith) started,
                start_cmd addr devad regnum bus_read cleaned,
                before,
              )
              refl,
          finish_read_kept dat_kept (omega arith) started
              ∙ start_other dat_kept (omega arith) addr devad regnum bus_read cleaned
              ∙ clean_status_kept dat_kept (omega arith) bus,
          λ v e. finish_read_small started v e,
        )
