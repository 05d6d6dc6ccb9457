-- ===== src/Mdio/Deferred.antt =====
-- A write to the MDIO bus does not wait for its end: its error is the result of the next access.
use fboss_bsp_kmods.Base.{ℕ, ◌≡◌, arith, refl, some, true, ap, ◌∙◌}
use fboss_bsp_kmods.Kernel.{ok, err}
use fboss_bsp_kmods.Kernel.Errno.{eio}
use fboss_bsp_kmods.Mmio.{Mmio}
use fboss_bsp_kmods.Mmio.Kept.{IsKept}
use fboss_bsp_kmods.Mdio.{
  MdioBus, state_ready, state_busy, sts_err, reg_sts, reg_cmd, reg_wr_dat, csr_read,
}
use fboss_bsp_kmods.Mdio.{poll_ready, wait_bus_ready, fbiob_mdio_read_c45}
use fboss_bsp_kmods.Mdio.{read_waited, fbiob_mdio_write_c45}
use fboss_bsp_kmods.Mdio.Command.{clean_status_kept, fbiob_mdio_write_c45_ready}
use fboss_bsp_kmods.Mdio.Wait.{status}

module _ {S : Type 0} (io : Mmio S) where
  wait_failed :
      (bus : MdioBus S)
      → bus.state ≡ state_busy
      → sts_err (status io bus) ≡ true
      → wait_bus_ready io bus ≡ (some eio, (csr_read io reg_sts bus).1)
  unfolding wait_bus_ready poll_ready
  wait_failed bus busy failed = ground arith

  read_failed :
      (addr devad regnum : ℕ) (bus : MdioBus S)
      → bus.state ≡ state_busy
      → sts_err (status io bus) ≡ true
      → fbiob_mdio_read_c45 io addr devad regnum bus
        ≡ read_waited io addr devad regnum (some eio, (csr_read io reg_sts bus).1)
  unfolding fbiob_mdio_read_c45
  read_failed addr devad regnum bus busy failed =
      ap (read_waited io addr devad regnum) (wait_failed bus busy failed)

  -- On a controller whose command and data registers keep what is written, if the status shows an
  -- error after a write that began in the state READY, the write has returned 0, and a read that
  -- follows returns EIO, starts no command, and leaves the state READY.
  pub fbiob_mdio_read_c45-write_c45 :
      (cmd wr_dat : S → ℕ)
      → IsKept io reg_cmd cmd
      → IsKept io reg_wr_dat wr_dat
      → (debug addr devad regnum val addr' devad' regnum' : ℕ) (bus : MdioBus S)
      → bus.state ≡ state_ready
      → sts_err (status io (fbiob_mdio_write_c45 io debug addr devad regnum val bus).1) ≡ true
      → let (done, written) = fbiob_mdio_write_c45 io debug addr devad regnum val bus in
        let (ret, bus') = fbiob_mdio_read_c45 io addr' devad' regnum' written in
        (done ≡ ok tt)
        × (ret ≡ err eio)
        × (bus'.state ≡ state_ready)
        × (cmd bus'.hw ≡ cmd written.hw)
        × (wr_dat bus'.hw ≡ wr_dat written.hw)
  fbiob_mdio_read_c45-write_c45 cmd wr_dat cmd_kept dat_kept debug addr devad regnum val addr'
        devad' regnum' bus ready failed =
      let written = (fbiob_mdio_write_c45 io debug addr devad regnum val bus).1 in
      let (succeeded, busy, fields, low, high) =
        fbiob_mdio_write_c45_ready io cmd wr_dat cmd_kept dat_kept debug addr devad regnum val bus
          ready in
      let polled = (csr_read io reg_sts written).1 in
      rw (read_failed addr' devad' regnum' written busy failed) (
        succeeded,
        refl,
        refl,
        clean_status_kept cmd_kept (omega arith) polled ∙ cmd_kept.read_kept written.hw reg_sts,
        clean_status_kept dat_kept (omega arith) polled ∙ dat_kept.read_kept written.hw reg_sts,
      )
