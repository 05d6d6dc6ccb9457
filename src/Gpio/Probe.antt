-- ===== src/Gpio/Probe.antt =====
-- What `fbiob_gpio_probe` asks of the kernel, and what it hands to it.
use fboss_bsp_kmods.Base.{ℕ, Bool, not, Option, none, some, if◌then◌else◌}
use fboss_bsp_kmods.Kernel.Errno.{enomem, ebusy}
use fboss_bsp_kmods.Mmio.{Mmio}
use fboss_bsp_kmods.Gpio.{num_lines, fbiob_gpio_get, fbiob_gpio_get_direction}
use fboss_bsp_kmods.Gpio.{fbiob_gpio_direction_input, fbiob_gpio_direction_output}

-- `struct gpio_chip`, as far as the driver fills it in: there is no method to set a line.
pub record GpioChip (S : Type 0) : Type 0 where
  pub get : ℕ → S → Bool × S
  pub get_direction : ℕ → S → ℕ × S
  pub direction_input : ℕ → S → S
  pub direction_output : (offset value : ℕ) → S → S
  pub ngpio : ℕ

abbrev pub chip_of : {S : Type 0} → Mmio S → GpioChip S
chip_of io = record {
  get = fbiob_gpio_get io;
  get_direction = fbiob_gpio_get_direction io;
  direction_input = fbiob_gpio_direction_input io;
  direction_output = fbiob_gpio_direction_output io;
  ngpio = num_lines;
}

pub record Answers : Type 0 where
  pub got_priv : Bool
  pub got_csr : Bool
  pub map_csr : Bool
  pub add_chip : Option ℕ

-- The code, 0 as `none`, and the chip that is added.
pub fbiob_gpio_probe : {S : Type 0} → Mmio S → Answers → Option ℕ × Option (GpioChip S)
fbiob_gpio_probe io a =
    if not a.got_priv
    then (some enomem, none)
    else if not a.got_csr
    then (some ebusy, none)
    else if not a.map_csr
    then (some enomem, none)
    else elim a.add_chip [ some e ↦ (some e, none) | none ↦ (none, some (chip_of io)) ]
