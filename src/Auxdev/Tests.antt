-- ===== src/Auxdev/Tests.antt =====
-- Concrete requests to kmods/lib/fbiob-cdev.c, and the theorems at them.
use fboss_bsp_kmods.Base.{ℕ, ◌≡◌, ◌≢◌, ◌<◌, ◌⊎◌, arith, refl, true, none, some, []}
use fboss_bsp_kmods.Base.{◌∷◌, any, if◌then◌else◌, text_eq}
use fboss_bsp_kmods.Print.{codes}
use fboss_bsp_kmods.Auxdev.{AuxData, AuxBus, AddDevice, Answers, CdevDesc, new_device}
use fboss_bsp_kmods.Auxdev.{fbiob_auxdev_match, fbiob_auxdev_add, fbiob_auxdev_remove}
use fboss_bsp_kmods.Auxdev.{fbiob_cdev_ioctl, aux_data_validate, invalid_offset}
use fboss_bsp_kmods.Auxdev.Bus.{IsValid, RefusesTaken, fbiob_cdev_ioctl-IsValid}
use fboss_bsp_kmods.Auxdev.Bus.{fbiob_auxdev_remove-add}
use fboss_bsp_kmods.Auxdev.Address.{aux_data_validate_window}

abbrev i2c_master : ℕ → AuxData
i2c_master n = record {
  id = record { name = codes "i2c_master"; id = n };
  csr_offset = 0x500;
  iobuf_offset = invalid_offset;
  settings = [];
}

-- One device on the bus.
abbrev one_master : AuxBus
one_master = record { devices = i2c_master 1 ∷ []; added = (i2c_master 1).id ∷ []; allocated = 1 }

one_master-IsValid : IsValid one_master
one_master-IsValid = (refl, refl, refl)

-- A kernel that adds any device whose name and number are free.
abbrev add_free : AddDevice
add_free added id = if any (λ a. fbiob_auxdev_match a id) added then some 17 else none

add_free-RefusesTaken : RefusesTaken add_free
add_free-RefusesTaken added id taken = ground arith

abbrev all_well : Answers
all_well = record { got_memory = true; init_device = none }

abbrev fpga : CdevDesc
fpga = record { base_bus_addr = 0xfb000000; max_offset = 0x100000 }

abbrev high_fpga : CdevDesc
high_fpga = record { base_bus_addr = 0x2000000000; max_offset = 0x100000 }

adds_second : (fbiob_auxdev_add add_free all_well (i2c_master 2) one_master).0 ≡ none
unfolding fbiob_auxdev_add fbiob_auxdev_match text_eq
adds_second = refl

refuses_first : (fbiob_auxdev_add add_free all_well (i2c_master 1) one_master).0 ≢ none
unfolding fbiob_auxdev_add fbiob_auxdev_match text_eq
refuses_first = ground arith

-- A controller with an I/O buffer near the end of the window.
abbrev flash : AuxData
flash = record (i2c_master 2) { iobuf_offset = 0xffe00 }

passes : (aux_data_validate fpga flash).0 ≡ none
unfolding aux_data_validate
passes = refl

passes_high : (aux_data_validate high_fpga (i2c_master 2)).0 ≡ none
unfolding aux_data_validate
passes_high = refl

fbiob_cdev_ioctl-IsValid_example :
    IsValid (fbiob_cdev_ioctl add_free all_well fpga new_device (some (i2c_master 2)) one_master).1
fbiob_cdev_ioctl-IsValid_example =
    fbiob_cdev_ioctl-IsValid add_free all_well fpga new_device (some (i2c_master 2)) one_master
      add_free-RefusesTaken one_master-IsValid

fbiob_auxdev_remove-add_example :
    let after = (fbiob_auxdev_add add_free all_well (i2c_master 2) one_master).1 in
    (fbiob_auxdev_remove (i2c_master 2).id after ≡ (none, one_master))
    × (fbiob_auxdev_remove (i2c_master 2).id one_master ≡ (some 6, one_master))
fbiob_auxdev_remove-add_example =
    fbiob_auxdev_remove-add add_free all_well (i2c_master 2) one_master add_free-RefusesTaken
      one_master-IsValid adds_second

aux_data_validate_window_example :
    let d' = (aux_data_validate fpga flash).1 in
    (d'.csr_offset ≡ 0xfb000500)
    × (d'.csr_offset < 0xfb100000)
    × (d'.iobuf_offset ≡ 0xfb0ffe00)
    × ((◌≡◌ {A = ℕ} 0xffe00 invalid_offset) ⊎ (d'.iobuf_offset < 0xfb100000))
aux_data_validate_window_example = aux_data_validate_window fpga flash (omega arith) passes
