-- ===== src/Auxdev.antt =====
-- kmods/lib/fbiob-auxdev.c, kmods/lib/fbiob-cdev.c and kmods/fboss_iob_pci_main.c: the I/O
-- controllers of an FPGA, made and removed as auxiliary devices at run time by ioctl.
pub mod Bus
pub mod Address
mod Tests
use fboss_bsp_kmods.Base.{
  ℕ, suc, ◌+◌, ◌-◌, ◌^◌, Bool, ◌||◌, ◌&&◌, not, Text, text_eq, List, [], ◌∷◌,
}
use fboss_bsp_kmods.Base.{Option, none, some, if◌then◌else◌, ltb, leb, ◌==◌}
use fboss_bsp_kmods.Bits.{u32}
use fboss_bsp_kmods.Kernel.Errno.{einval, enxio, enomem, efault, enodev}

-- `struct fbiob_aux_id`.
pub record AuxId : Type 0 where
  pub name : Text
  pub id : ℕ

-- `struct fbiob_aux_data`. The union at its end is passed through as bytes.
pub record AuxData : Type 0 where
  pub id : AuxId
  pub csr_offset : ℕ
  pub iobuf_offset : ℕ
  pub settings : List ℕ

-- `struct fbiob_aux_bus`: the adapters in its list, and beside them what the kernel holds: the
-- devices that are added, and the number of adapters in memory.
pub record AuxBus : Type 0 where
  pub devices : List AuxData
  pub added : List AuxId
  pub allocated : ℕ

-- `auxiliary_device_add`, by what it answers where the listed devices exist already.
abbrev pub AddDevice : Type 0
AddDevice = List AuxId → AuxId → Option ℕ

-- What else the kernel answers to an ioctl: whether `kzalloc` succeeds, and
-- `auxiliary_device_init`.
pub record Answers : Type 0 where
  pub got_memory : Bool
  pub init_device : Option ℕ

pub fbiob_auxdev_match : AuxId → AuxId → Bool
fbiob_auxdev_match id1 id2 = (id1.id == id2.id) && text_eq id1.name id2.name

-- `auxiliary_device_delete`: the device goes from the kernel's list.
pub auxiliary_device_delete : AuxId → List AuxId → List AuxId
auxiliary_device_delete id [] = []
auxiliary_device_delete id (a ∷ added) =
    if fbiob_auxdev_match a id then added else a ∷ auxiliary_device_delete id added

-- `auxiliary_device_uninit` drops the last reference, and `fbiob_auxdev_release` frees the adapter.
abbrev pub auxiliary_device_uninit : AuxBus → AuxBus
auxiliary_device_uninit bus = record bus { allocated = bus.allocated - 1 }

-- The adapter that `fbiob_auxdev_remove` finds, and the list without it.
pub take_match : AuxId → List AuxData → Option (AuxData × List AuxData)
take_match id [] = none
take_match id (d ∷ devices) =
    let rest = take_match id devices in
    if fbiob_auxdev_match d.id id
    then some (d, devices)
    else elim rest [ none ↦ none | some (found, others) ↦ some (found, d ∷ others) ]

-- `list_del`, `auxiliary_device_delete` and `auxiliary_device_uninit` of the adapter `d`, with the
-- list that is left.
pub unplug : AuxData → List AuxData → AuxBus → AuxBus
unplug d left bus =
    auxiliary_device_uninit
      (record bus { devices = left; added = auxiliary_device_delete d.id bus.added })

pub fbiob_auxdev_remove : AuxId → AuxBus → Option ℕ × AuxBus
fbiob_auxdev_remove id bus = elim (take_match id bus.devices) [
  | none ↦ (some enxio, bus)
  | some (d, left) ↦ (none, unplug d left bus)
]

pub fbiob_auxdev_add : AddDevice → Answers → AuxData → AuxBus → Option ℕ × AuxBus
fbiob_auxdev_add add_device a aux_data bus =
    if not a.got_memory
    then (some enomem, bus)
    else (let adap = record bus { allocated = suc bus.allocated } in
        elim a.init_device [
          | some e ↦ (some e, record adap { allocated = adap.allocated - 1 })
          | none ↦ elim (add_device bus.added aux_data.id) [
            | some e ↦ (some e, auxiliary_device_uninit adap)
            | none ↦ (
              none,
              record adap { devices = aux_data ∷ bus.devices; added = aux_data.id ∷ bus.added },
            )
          ]
        ])

-- The loop of `fbiob_auxbus_destroy` over the list.
pub unplug_all : List AuxData → AuxBus → AuxBus
unplug_all [] bus = bus
unplug_all (d ∷ left) bus = unplug_all left (unplug d left bus)

pub fbiob_auxbus_destroy : AuxBus → AuxBus
fbiob_auxbus_destroy bus = unplug_all bus.devices bus

pub fbiob_auxbus_init : AuxBus
fbiob_auxbus_init = record { devices = []; added = []; allocated = 0 }

-- FBIOB_INVALID_OFFSET, `(__u32)-1`.
abbrev pub invalid_offset : ℕ
invalid_offset = 2 ^ 32 - 1

-- `struct fbiob_cdev_desc`, as far as the ioctl reads it: the window of the FPGA on the bus.
pub record CdevDesc : Type 0 where
  pub base_bus_addr : ℕ
  pub max_offset : ℕ

-- The data with bus addresses for offsets, or the error code. The fields are `u32`.
pub aux_data_validate : CdevDesc → AuxData → Option ℕ × AuxData
aux_data_validate cdesc aux_data =
    if (aux_data.csr_offset == invalid_offset) || leb cdesc.max_offset aux_data.csr_offset
    then (some einval, aux_data)
    else (let aux_data' = record aux_data {
      csr_offset = u32 (aux_data.csr_offset + cdesc.base_bus_addr);
    } in
        if aux_data'.iobuf_offset == invalid_offset
        then (none, aux_data')
        else if leb cdesc.max_offset aux_data'.iobuf_offset
        then (some einval, aux_data')
        else (
          none,
          record aux_data' { iobuf_offset = u32 (aux_data'.iobuf_offset + cdesc.base_bus_addr) },
        ))

pub data Command : Type 0 where
  new_device : Command
  del_device : Command
  other : Command

-- The data is `none` if it cannot be copied from user space.
pub fbiob_cdev_ioctl :
    AddDevice → Answers → CdevDesc → Command → Option AuxData → AuxBus → Option ℕ × AuxBus
fbiob_cdev_ioctl add_device a cdesc cmd none bus = (some efault, bus)
fbiob_cdev_ioctl add_device a cdesc new_device (some aux_data) bus =
    let (ret, aux_data') = aux_data_validate cdesc aux_data in
    elim ret [ some e ↦ (some e, bus) | none ↦ fbiob_auxdev_add add_device a aux_data' bus ]
fbiob_cdev_ioctl add_device a cdesc del_device (some aux_data) bus =
    fbiob_auxdev_remove aux_data.id bus
fbiob_cdev_ioctl add_device a cdesc other (some aux_data) bus = (some einval, bus)

-- What the kernel answers while the PCI device is probed: memory, `pcim_enable_device`, and
-- `fbiob_cdev_init`, that is `misc_register`.
pub record ProbeAnswers : Type 0 where
  pub got_priv : Bool
  pub enable_device : Option ℕ
  pub register_cdev : Option ℕ
  pub bar0 : CdevDesc

-- `struct fbiob_priv`: the bus while it is initialised, the character device while it stands.
pub record FbiobPriv : Type 0 where
  pub aux_bus : Option AuxBus
  pub cdev_desc : Option CdevDesc

-- Any error of `pcim_enable_device` comes back as ENODEV, by `fbiob_init_pci`.
pub fbiob_pci_probe : ProbeAnswers → FbiobPriv → Option ℕ × FbiobPriv
fbiob_pci_probe a priv = if not a.got_priv then (some enomem, priv) else elim a.enable_device [
  | some e ↦ (some enodev, priv)
  | none ↦ elim a.register_cdev [
    | some e ↦ (some e, record priv { aux_bus = none })
    | none ↦ (none, record { aux_bus = some fbiob_auxbus_init; cdev_desc = some a.bar0 })
  ]
]

-- `fbiob_pci_remove`: the character device first, so that no ioctl meets a bus that is gone. The
-- bus as it is left is what the kernel still holds.
pub fbiob_pci_remove : FbiobPriv → Option AuxBus × FbiobPriv
fbiob_pci_remove priv = (
  elim priv.aux_bus [ none ↦ none | some bus ↦ some (fbiob_auxbus_destroy bus) ],
  record { aux_bus = none; cdev_desc = none },
)
