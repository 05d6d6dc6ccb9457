-- ===== src/I2c/Probe.antt =====
-- Probe and remove of the I2C controller in kmods/fboss_iob_i2c.c.
use fboss_bsp_kmods.Base.{ℕ, ◌+◌, ◌-◌, ◌≡◌, arith, Bool, not, Option, none, some, if◌then◌else◌}
use fboss_bsp_kmods.Kernel.Errno.{enomem, ebusy}
use fboss_bsp_kmods.Mmio.{Mmio}
use fboss_bsp_kmods.I2c.{Bus, fbiob_i2c_reset, fbiob_i2c_set_timing}

-- What the kernel answers: whether memory, region and mapping are granted, and the error code of the
-- registration of the adapter, `none` for success.
pub record Answers : Type 0 where
  pub got_bus : Bool
  pub got_csr : Bool
  pub map_csr : Bool
  pub add_adapter : Option ℕ

-- The code, 0 as `none`, the adapters that are registered then, and the controller. `bus` is the
-- zeroed one, with the frequency that was asked for.
pub fbiob_i2c_probe :
    {S : Type 0} → Mmio S → Answers → (adapters : ℕ) → Bus S → Option ℕ × ℕ × Bus S
fbiob_i2c_probe io a adapters bus =
    let set_up = fbiob_i2c_set_timing io (fbiob_i2c_reset io bus) in
    if not a.got_bus
    then (some enomem, adapters, bus)
    else if not a.got_csr
    then (some ebusy, adapters, bus)
    else if not a.map_csr
    then (some enomem, adapters, bus)
    else elim a.add_adapter [
      | some e ↦ (some e, adapters, set_up)
      | none ↦ (none, adapters + 1, set_up)
    ]

pub fbiob_i2c_remove : (adapters : ℕ) → ℕ
fbiob_i2c_remove adapters = adapters - 1

-- How many adapters a result stands for.
abbrev pub adapter_of : Option ℕ → ℕ
adapter_of none = 1
adapter_of (some e) = 0

-- A probe leaves one more adapter if it succeeds and none if it fails, whatever fails.
pub fbiob_i2c_probe_adapters :
    {S : Type 0} (io : Mmio S) (a : Answers) (adapters : ℕ) (bus : Bus S)
    → let (ret, adapters', bus') = fbiob_i2c_probe io a adapters bus in
      adapters' ≡ adapters + adapter_of ret
unfolding fbiob_i2c_probe
fbiob_i2c_probe_adapters io a adapters bus = ground arith
