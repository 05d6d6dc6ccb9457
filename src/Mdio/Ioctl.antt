-- ===== src/Mdio/Ioctl.antt =====
-- An MDIO access by ioctl, down to the registers of the controller.
use fboss_bsp_kmods.Base.{ℕ, ◌%◌, ◌<◌, ◌≡◌, arith, refl, some, ap, Bool, true, false, ◌∙◌}
use fboss_bsp_kmods.Base.{bit_and}
use fboss_bsp_kmods.Bits.Laws.{bit_and_ones}
use fboss_bsp_kmods.Kernel.{Ret, ok, err, undefined}
use fboss_bsp_kmods.Field.{field_of}
use fboss_bsp_kmods.Mmio.{Mmio}
use fboss_bsp_kmods.Mmio.Kept.{IsKept}
use fboss_bsp_kmods.Mdio.{MdioBus, state_ready, state_busy, reg_cmd, reg_wr_dat}
use fboss_bsp_kmods.Mdio.{fbiob_mdio_read_c45, fbiob_mdio_write_c45}
use fboss_bsp_kmods.Mdio.Command.{fields_of, fbiob_mdio_write_c45_ready, fbiob_mdio_read_c45_ready}
use fboss_bsp_kmods.Mdio.Phy.{Phase, IsPhy, is_running, fbiob_mdio_read_c45_answer}
use fboss_bsp_kmods.Mdio.Cdev.{MiiBus, MdioXfer, c45_read, c45_write, fb_mdio_cdev_ioctl}
use fboss_bsp_kmods.Mdio.Cdev.{copy_data, mdio_phy_addr, mdio_dev_addr, mdio_c45_reg}

-- What the driver relies on: the kernel's bus passes an access on to the driver's method.
pub record IsThrough {S : Type 0} (io : Mmio S) (debug : ℕ) (m : MiiBus (MdioBus S)) : Type 0 where
  pub read_through :
      (addr devad regnum : ℕ) (bus : MdioBus S)
      → m.mdiobus_c45_read addr devad regnum bus ≡ fbiob_mdio_read_c45 io addr devad regnum bus
  pub write_through :
      (addr devad regnum val : ℕ) (bus : MdioBus S)
      → m.mdiobus_c45_write addr devad regnum val bus
        ≡ fbiob_mdio_write_c45 io debug addr devad regnum val bus

masked_5 : (a : ℕ) → bit_and a 0x1F ≡ a % 32
masked_5 a = bit_and_ones 5 a

masked_16 : (a : ℕ) → bit_and a 0xFFFF ≡ a % 65536
masked_16 a = bit_and_ones 16 a

copy_data_ok :
    (xfer : MdioXfer) (r : Ret ℕ)
    → ((v : ℕ) → r ≡ ok v → v < 65536)
    → (copy_data xfer true r).0 ≡ ok tt
    → (v : ℕ) × (r ≡ ok v)
      × (v < 65536)
      × ((copy_data xfer true r).1 ≡ some (record xfer { reg_data = v }))
copy_data_ok xfer (ok v) small h =
    let e : bit_and v 0xFFFF ≡ v = omega (arith, masked_16 v, small v refl) in
    (v, refl, small v refl, rw e refl)
copy_data_ok xfer (err e) small h = cc
copy_data_ok xfer undefined small h = cc

module _ {S : Type 0} (io : Mmio S) (cmd wr_dat : S → ℕ) (cmd_kept : IsKept io reg_cmd cmd)
    (dat_kept : IsKept io reg_wr_dat wr_dat) (debug : ℕ) (m : MiiBus (MdioBus S))
    (through : IsThrough io debug m) where
  -- On a controller whose command and data registers keep what is written, a write by ioctl that
  -- starts in the state READY returns 0, leaves the request of the user as it was and the state
  -- BUSY, and has sent the write command with the addresses cut down to their fields, the
  -- reserved bits kept, and the lower 16 bits of the data.
  pub fb_mdio_cdev_ioctl_write :
      (xfer : MdioXfer) (writable : Bool) (bus : MdioBus S)
      → bus.state ≡ state_ready
      → let ((ret, user), bus') = fb_mdio_cdev_ioctl m c45_write (some xfer) writable bus in
        (ret ≡ ok tt)
        × (user ≡ some xfer)
        × (bus'.state ≡ state_busy)
        × (fields_of (cmd bus'.hw) ≡ record (fields_of (cmd bus.hw)) {
          devad = xfer.dev_addr % 32;
          op = 0;
          phyad = xfer.phy_addr % 32;
          reg = xfer.reg_addr % 65536;
        })
        × (field_of 0 16 (wr_dat bus'.hw) ≡ xfer.reg_data % 65536)
  unfolding fb_mdio_cdev_ioctl
  fb_mdio_cdev_ioctl_write xfer writable bus ready =
      let phy = mdio_phy_addr xfer.phy_addr in
      let dev = mdio_dev_addr xfer.dev_addr in
      let reg = mdio_c45_reg xfer.reg_addr in
      let val = mdio_c45_reg xfer.reg_data in
      let (succeeded, busy, fields, low, high) =
        fbiob_mdio_write_c45_ready io cmd wr_dat cmd_kept dat_kept debug phy dev reg val bus
          ready in
      rw (through.write_through phy dev reg val bus) (
        succeeded,
        refl,
        busy,
        fields
            ∙ ground
                (arith, masked_5 xfer.phy_addr, masked_5 xfer.dev_addr, masked_16 xfer.reg_addr),
        low ∙ ground (arith, masked_16 xfer.reg_data),
      )

  -- On a controller whose command and data registers keep what is written, which holds the answer
  -- of the PHY to a read command in its data register once, and only once, a poll shows the end
  -- of the command without an error and the status is cleared, and with a kernel that passes
  -- reads on to the driver, a read by ioctl that starts in the state READY with no command
  -- running, into memory that can be written, and succeeds leaves the state READY, has sent the
  -- read command with the addresses cut down to their fields and the reserved bits kept, and
  -- returns the request with its data replaced by what the PHY answers at those addresses.
  pub fb_mdio_cdev_ioctl_read :
      (phase : S → Phase) (phy : (phyad devad reg : ℕ) → ℕ)
      → IsPhy io phase phy
      → (xfer : MdioXfer) (bus : MdioBus S) → bus.state ≡ state_ready
      → is_running (phase bus.hw) ≡ false
      → (fb_mdio_cdev_ioctl m c45_read (some xfer) true bus).0.0 ≡ ok tt
      → let ((ret, user), bus') = fb_mdio_cdev_ioctl m c45_read (some xfer) true bus in
        (bus'.state ≡ state_ready)
        × (fields_of (cmd bus'.hw) ≡ record (fields_of (cmd bus.hw)) {
          devad = xfer.dev_addr % 32;
          op = 1;
          phyad = xfer.phy_addr % 32;
          reg = xfer.reg_addr % 65536;
        })
        × (user
            ≡ some (record xfer {
              reg_data = phy (xfer.phy_addr % 32) (xfer.dev_addr % 32) (xfer.reg_addr % 65536);
            }))
  unfolding fb_mdio_cdev_ioctl
  fb_mdio_cdev_ioctl_read phase phy is_phy xfer bus ready quiet h =
      let phyad = mdio_phy_addr xfer.phy_addr in
      let dev = mdio_dev_addr xfer.dev_addr in
      let reg = mdio_c45_reg xfer.reg_addr in
      let (done, fields, same, small) =
        fbiob_mdio_read_c45_ready io cmd wr_dat cmd_kept dat_kept phyad dev reg bus ready in
      let passed = through.read_through phyad dev reg bus in
      let e5 : phyad % 32 ≡ xfer.phy_addr % 32 = omega (arith, masked_5 xfer.phy_addr) in
      let d5 : dev % 32 ≡ xfer.dev_addr % 32 = omega (arith, masked_5 xfer.dev_addr) in
      let r16 : reg % 65536 ≡ xfer.reg_addr % 65536 = omega (arith, masked_16 xfer.reg_addr) in
      let (v, got, below, copied) =
        copy_data_ok xfer (fbiob_mdio_read_c45 io phyad dev reg bus).0 small (rw passed at h) in
      let answer = fbiob_mdio_read_c45_answer is_phy phyad dev reg v bus ready quiet got in
      rw passed (
        done,
        fields ∙ ground (arith, e5, d5, r16),
        copied
            ∙ ap (λ (d : ℕ). some (record xfer { reg_data = d })) (answer ∙ rw (e5, d5, r16) refl),
      )
