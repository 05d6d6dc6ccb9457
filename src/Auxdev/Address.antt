-- ===== src/Auxdev/Address.antt =====
-- The bus addresses that the offsets of a request become.
use fboss_bsp_kmods.Base.{◌+◌, ◌^◌, ◌≤◌, ◌<◌, ◌≡◌, ◌≢◌, ◌⊎◌, ◌↔◌, arith, none, if◌then◌else◌, ◌==◌}
use fboss_bsp_kmods.Auxdev.{AuxData, CdevDesc, aux_data_validate, invalid_offset}

-- The window of the FPGA lies below 4 GiB.
abbrev pub IsLow : CdevDesc → Type 0
IsLow cdesc = cdesc.base_bus_addr + cdesc.max_offset ≤ 2 ^ 32

-- A request for a device passes exactly if it has a register block that starts in the window of
-- the FPGA, and its I/O buffer starts there too or it has none.
pub aux_data_validate_iff :
    (cdesc : CdevDesc) (d : AuxData)
    → ((aux_data_validate cdesc d).0 ≡ none) ↔ (
        (d.csr_offset ≢ invalid_offset)
        × (d.csr_offset < cdesc.max_offset)
        × ((d.iobuf_offset ≡ invalid_offset) ⊎ (d.iobuf_offset < cdesc.max_offset)))
unfolding aux_data_validate
aux_data_validate_iff cdesc d = ground arith

-- For a window below 4 GiB, a request that passes gets for its register block the bus address of
-- its offset, inside the window; an I/O buffer stays missing if it is, and otherwise gets the bus
-- address of its offset, inside the window too.
pub aux_data_validate_window :
    (cdesc : CdevDesc) (d : AuxData)
    → IsLow cdesc
    → (aux_data_validate cdesc d).0 ≡ none
    → let d' = (aux_data_validate cdesc d).1 in
      (d'.csr_offset ≡ cdesc.base_bus_addr + d.csr_offset)
      × (d'.csr_offset < cdesc.base_bus_addr + cdesc.max_offset)
      × (d'.iobuf_offset ≡ (
          if d.iobuf_offset == invalid_offset
          then invalid_offset
          else cdesc.base_bus_addr + d.iobuf_offset))
      × ((d.iobuf_offset ≡ invalid_offset)
          ⊎ (d'.iobuf_offset < cdesc.base_bus_addr + cdesc.max_offset))
unfolding aux_data_validate
aux_data_validate_window cdesc d low h = (ground arith, ground arith, ground arith, ground arith)

-- For a window at 4 GiB or above, a request that passes is handed on with a register address
-- below the window.
pub aux_data_validate_high :
    (cdesc : CdevDesc) (d : AuxData)
    → 2 ^ 32 ≤ cdesc.base_bus_addr
    → (aux_data_validate cdesc d).0 ≡ none
    → (aux_data_validate cdesc d).1.csr_offset < cdesc.base_bus_addr
unfolding aux_data_validate
aux_data_validate_high cdesc d high h = ground arith
