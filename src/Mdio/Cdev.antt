-- ===== src/Mdio/Cdev.antt =====
-- kmods/lib/fboss-mdio.c: MDIO accesses by ioctl.
use fboss_bsp_kmods.Base.{ℕ, Bool, if◌then◌else◌, Option, none, some, bit_and}
use fboss_bsp_kmods.Kernel.{Ret, ok, err, undefined, Io}
use fboss_bsp_kmods.Kernel.Errno.{einval, efault}

-- What the kernel's bus makes of an access: `mdiobus_c45_read`, `mdiobus_c45_write`.
pub record MiiBus (S : Type 0) : Type 0 where
  pub mdiobus_c45_read : (addr devad regnum : ℕ) → Io S ℕ
  pub mdiobus_c45_write : (addr devad regnum val : ℕ) → Io S (Unit {0})

-- `struct fb_mdio_xfer`.
pub record MdioXfer : Type 0 where
  pub phy_addr : ℕ
  pub dev_addr : ℕ
  pub reg_addr : ℕ
  pub reg_data : ℕ

abbrev pub mdio_phy_addr : ℕ → ℕ
mdio_phy_addr a = bit_and a 0x1F

abbrev pub mdio_dev_addr : ℕ → ℕ
mdio_dev_addr a = bit_and a 0x1F

abbrev pub mdio_c45_reg : ℕ → ℕ
mdio_c45_reg r = bit_and r 0xFFFF

pub data MdioCommand : Type 0 where
  c45_read c45_write other : MdioCommand

-- What a read leaves with user space, from the result of the bus on. `writable` is whether
-- `copy_to_user` succeeds.
abbrev pub copy_data : MdioXfer → Bool → Ret ℕ → Ret (Unit {0}) × Option MdioXfer
copy_data xfer writable (err e) = (err e, some xfer)
copy_data xfer writable undefined = (undefined, some xfer)
copy_data xfer writable (ok val) =
    if writable
    then (ok tt, some (record xfer { reg_data = mdio_c45_reg val }))
    else (err efault, some xfer)

module _ {S : Type 0} (bus : MiiBus S) where
  -- `user` is what `copy_from_user` reads, `none` if it fails. The result comes with what user
  -- space then holds.
  unfoldable pub fb_mdio_cdev_ioctl :
      MdioCommand → Option MdioXfer → Bool → S → (Ret (Unit {0}) × Option MdioXfer) × S
  fb_mdio_cdev_ioctl cmd none writable s = ((err efault, none), s)
  fb_mdio_cdev_ioctl c45_read (some xfer) writable s =
      let (val, s') =
        bus.mdiobus_c45_read (mdio_phy_addr xfer.phy_addr) (mdio_dev_addr xfer.dev_addr)
          (mdio_c45_reg xfer.reg_addr) s in
      (copy_data xfer writable val, s')
  fb_mdio_cdev_ioctl c45_write (some xfer) writable s =
      let (ret, s') =
        bus.mdiobus_c45_write (mdio_phy_addr xfer.phy_addr) (mdio_dev_addr xfer.dev_addr)
          (mdio_c45_reg xfer.reg_addr) (mdio_c45_reg xfer.reg_data) s in
      ((ret, some xfer), s')
  fb_mdio_cdev_ioctl other (some xfer) writable s = ((err einval, some xfer), s)
