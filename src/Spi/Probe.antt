-- ===== src/Spi/Probe.antt =====
-- kmods/fboss_iob_spi.c: setting up the controller and the devices behind it.
use fboss_bsp_kmods.Base.{
  ℕ, zero, suc, ◌+◌, ◌-◌, ◌^◌, Bool, true, false, not, ◌||◌, Option, none, some,
}
use fboss_bsp_kmods.Base.{List, [], ◌∷◌, if◌then◌else◌, ltb, ◌==◌, get_elem?, set, replicate}
use fboss_bsp_kmods.Kernel.{Ret, ok, err, undefined}
use fboss_bsp_kmods.Kernel.Errno.{einval, enomem, ebusy, enxio}
use fboss_bsp_kmods.Mmio.{Mmio}
use fboss_bsp_kmods.Spi.{SpiBus, fbiob_spi_init_hw, miso_buf_offset}

abbrev pub spidev_max : ℕ
spidev_max = 1

abbrev pub invalid_offset : ℕ
invalid_offset = 2 ^ 32 - 1

-- `struct spi_dev_info`, without the name.
pub record SpiDevInfo : Type 0 where
  pub max_speed_hz : ℕ
  pub chip_select : ℕ

-- The part of `struct fbiob_aux_data` that this driver reads; `spidevs` has FBIOB_SPIDEV_MAX entries.
pub record SpiData : Type 0 where
  pub csr_offset : ℕ
  pub iobuf_offset : ℕ
  pub num_spidevs : ℕ
  pub spidevs : List SpiDevInfo

-- The part of `struct fbiob_spi_bus` that holds the devices: a slot is NULL or a device. With it, how
-- many devices the SPI core knows because of this driver.
pub record Clients : Type 0 where
  pub num_spidevs : ℕ
  pub spidevs : List Bool
  pub registered : ℕ

-- What the kernel answers: whether each request succeeds, where the regions are mapped, the error code of the registration of the
-- controller, and whether a device is created.
pub record Answers : Type 0 where
  pub got_host : Bool
  pub got_csr : Bool
  pub map_csr : Option ℕ
  pub got_iobuf : Bool
  pub map_iobuf : Option ℕ
  pub register_controller : Option ℕ
  pub new_device : SpiDevInfo → Bool

-- The loop of `fbiob_spi_destroy_clients` over the first `num_spidevs` slots.
unfoldable pub destroy_slots : ℕ → List Bool → ℕ → List Bool × ℕ
destroy_slots zero slots registered = (slots, registered)
destroy_slots (suc left) [] registered = ([], registered)
destroy_slots (suc left) (slot ∷ slots) registered =
    let (slots', registered') =
      destroy_slots left slots (if slot then registered - 1 else registered) in
    (false ∷ slots', registered')

unfoldable pub fbiob_spi_destroy_clients : Clients → Clients
fbiob_spi_destroy_clients c =
    let (slots, registered) = destroy_slots c.num_spidevs c.spidevs c.registered in
    record c { spidevs = slots; registered = registered }

-- The loop of `fbiob_spi_init_clients` from slot `i` on, with `left` rounds to come. Reading an
-- entry beyond the request is undefined.
unfoldable pub create_clients :
    Answers → List SpiDevInfo → (i left : ℕ) → Clients → Ret (Unit {0}) × Clients
create_clients a infos i zero c = (ok tt, c)
create_clients a infos i (suc left) c =
    let rest =
      create_clients a infos (suc i) left
        (record c { spidevs = set c.spidevs i true; registered = c.registered + 1 }) in
    elim (get_elem? infos i) [
      | none ↦ (undefined, c)
      | some info ↦ if a.new_device info then rest else (err enxio, fbiob_spi_destroy_clients c)
    ]

-- Here and below, `max` is FBIOB_SPIDEV_MAX; the driver is compiled with `spidev_max`.
unfoldable pub fbiob_spi_init_clients :
    (max : ℕ) → Answers → SpiData → Clients → Ret (Unit {0}) × Clients
fbiob_spi_init_clients max a pdata c =
    let num = if ltb max pdata.num_spidevs then max else pdata.num_spidevs in
    create_clients a pdata.spidevs 0 num (record c { num_spidevs = num })

unfoldable pub fbiob_spi_init_mmio : Answers → Ret SpiBus
fbiob_spi_init_mmio a = if not a.got_csr then err ebusy else elim a.map_csr [
  | none ↦ err enomem
  | some csr ↦ if not a.got_iobuf then err ebusy else elim a.map_iobuf [
    | none ↦ err enomem
    | some mosi ↦
        ok (record { mmio_csr = csr; mmio_mosi = mosi; mmio_miso = mosi + miso_buf_offset })
  ]
]

-- The devices of a bus that is just allocated.
abbrev pub no_clients : (max : ℕ) → Clients
no_clients max = record { num_spidevs = 0; spidevs = replicate max false; registered = 0 }

-- What the kernel allocated for a probe that fails, it frees.
unfoldable pub fbiob_spi_probe :
    {S : Type 0} → Mmio S → (max : ℕ) → Answers → SpiData → S → (Ret (Unit {0}) × Clients) × S
fbiob_spi_probe io max a pdata s =
    if pdata.csr_offset == invalid_offset || (pdata.iobuf_offset == invalid_offset)
    then ((err einval, no_clients max), s)
    else if pdata.num_spidevs == 0
    then ((err einval, no_clients max), s)
    else if not a.got_host
    then ((err enomem, no_clients max), s)
    else elim (fbiob_spi_init_mmio a) [
      | err e ↦ ((err e, no_clients max), s)
      | undefined ↦ ((undefined, no_clients max), s)
      | ok bus ↦ elim a.register_controller [
        | some e ↦ ((err e, no_clients max), fbiob_spi_init_hw io bus s)
        | none ↦ (fbiob_spi_init_clients max a pdata (no_clients max), fbiob_spi_init_hw io bus s)
      ]
    ]

unfoldable pub fbiob_spi_remove : Clients → Clients
fbiob_spi_remove c = fbiob_spi_destroy_clients c
