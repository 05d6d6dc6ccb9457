-- ===== src/Mdio/Probe.antt =====
-- Probe and remove of the MDIO controller in kmods/fboss_iob_mdio_aux.c, and the device file of
-- kmods/lib/fboss-mdio.c.
use fboss_bsp_kmods.Base.{ℕ, ◌+◌, ◌-◌, ◌≡◌, arith, Bool, not, Option, none, some, if◌then◌else◌}
use fboss_bsp_kmods.Kernel.Errno.{enomem, ebusy}
use fboss_bsp_kmods.Mmio.{Mmio}
use fboss_bsp_kmods.Mdio.{MdioBus, fbiob_mdio_reset}

-- What stands in the kernel because of a controller. The bus, with its file `reset_bus`, is released
-- with the device; the device file is not.
pub record World : Type 0 where
  pub buses : ℕ
  pub reset_files : ℕ
  pub cdevs : ℕ

-- What the kernel answers: whether memory, region and mapping are granted, and error codes, `none`
-- for success.
pub record Answers : Type 0 where
  pub got_bus : Bool
  pub got_csr : Bool
  pub map_csr : Bool
  pub register_bus : Option ℕ
  pub create_file : Option ℕ
  pub misc_register : Option ℕ

pub fb_mdio_cdev_init : Answers → World → Option ℕ × World
fb_mdio_cdev_init a w = elim a.misc_register [
  | some e ↦ (some e, w)
  | none ↦ (none, record w { cdevs = w.cdevs + 1 })
]

pub fb_mdio_cdev_destroy : World → World
fb_mdio_cdev_destroy w = record w { cdevs = w.cdevs - 1 }

-- From the registration of the bus on.
pub publish : Answers → World → Option ℕ × World
publish a w =
    let with_bus = record w { buses = w.buses + 1 } in
    let with_file = record with_bus { reset_files = w.reset_files + 1 } in
    elim a.register_bus [
      | some e ↦ (some e, w)
      | none ↦ elim a.create_file [
        | some e ↦ (some e, with_bus)
        | none ↦ fb_mdio_cdev_init a with_file
      ]
    ]

module _ {S : Type 0} (io : Mmio S) where
  abbrev pub then_publish : Answers → World → Option ℕ × MdioBus S → Option ℕ × World × MdioBus S
  then_publish a w (some e, bus) = (some e, w, bus)
  then_publish a w (none, bus) = let (ret, w') = publish a w in (ret, w', bus)

  pub fbiob_mdio_probe : Answers → World → MdioBus S → Option ℕ × World × MdioBus S
  fbiob_mdio_probe a w bus =
      if not a.got_bus
      then (some enomem, w, bus)
      else if not a.got_csr
      then (some ebusy, w, bus)
      else if not a.map_csr
      then (some enomem, w, bus)
      else then_publish a w (fbiob_mdio_reset io bus)

pub fbiob_mdio_remove : World → World
fbiob_mdio_remove w = fb_mdio_cdev_destroy w

-- How many device files a result stands for.
abbrev pub cdev_of : Option ℕ → ℕ
cdev_of none = 1
cdev_of (some e) = 0

publish_cdevs :
    (a : Answers) (w : World) → (publish a w).1.cdevs ≡ w.cdevs + cdev_of (publish a w).0
unfolding publish fb_mdio_cdev_init
publish_cdevs a w = ground arith

then_publish_cdevs :
    {S : Type 0} (io : Mmio S) (a : Answers) (w : World) (r : Option ℕ × MdioBus S)
    → (then_publish io a w r).1.cdevs ≡ w.cdevs + cdev_of (then_publish io a w r).0
then_publish_cdevs io a w (some e, bus) = omega arith
then_publish_cdevs io a w (none, bus) = publish_cdevs a w

-- A probe leaves one more device file if it succeeds and none if it fails, whatever fails.
pub fbiob_mdio_probe_cdevs :
    {S : Type 0} (io : Mmio S) (a : Answers) (w : World) (bus : MdioBus S)
    → let (ret, w', bus') = fbiob_mdio_probe io a w bus in w'.cdevs ≡ w.cdevs + cdev_of ret
unfolding fbiob_mdio_probe
fbiob_mdio_probe_cdevs io a w bus =
    ground (arith, then_publish_cdevs io a w (fbiob_mdio_reset io bus))
