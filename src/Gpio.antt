-- ===== src/Gpio.antt =====
-- kmods/fboss_iob_gpio.c: the GPIO controller of the FPGA, a register for each line.
pub mod Lines
pub mod Probe
mod Tests
use fboss_bsp_kmods.Base.{ℕ, ◌*◌, ◌^◌, Bool, if◌then◌else◌, bit_and, bit_or, not, ltb, ◌==◌}
use fboss_bsp_kmods.Bits.{not_u32}
use fboss_bsp_kmods.Mmio.{Mmio}

abbrev pub gpio_input : ℕ
gpio_input = 2 ^ 2

abbrev pub gpio_output : ℕ
gpio_output = 2 ^ 1

abbrev pub tristate_ctrl : ℕ
tristate_ctrl = 2 ^ 0

abbrev pub num_lines : ℕ
num_lines = 256

abbrev pub gpio_line_csr : ℕ → ℕ
gpio_line_csr l = l * 4

-- The kernel's `GPIO_LINE_DIRECTION_OUT` and `GPIO_LINE_DIRECTION_IN`.
abbrev pub line_direction_out : ℕ
line_direction_out = 0

abbrev pub line_direction_in : ℕ
line_direction_in = 1

-- The level that `fbiob_gpio_direction_output` puts into the register of a line.
abbrev pub put_level : (value val : ℕ) → ℕ
put_level value val =
    if value == 0 then bit_and val (not_u32 gpio_output) else bit_or val gpio_output

module _ {S : Type 0} (io : Mmio S) where
  abbrev pub gpio_csr_read : ℕ → S → ℕ × S
  gpio_csr_read offset s = io.readl offset s

  abbrev pub gpio_csr_write : ℕ → ℕ → S → S
  gpio_csr_write offset val s = io.writel offset val s

  unfoldable pub fbiob_gpio_get : ℕ → S → Bool × S
  fbiob_gpio_get offset s =
      let (val, s') = gpio_csr_read (gpio_line_csr offset) s in (ltb 0 (bit_and val gpio_input), s')

  -- The bit is joined with `|`, as in the source.
  unfoldable pub fbiob_gpio_get_direction : ℕ → S → ℕ × S
  fbiob_gpio_get_direction offset s =
      let (val, s') = gpio_csr_read (gpio_line_csr offset) s in
      ((if not (bit_or val tristate_ctrl == 0) then line_direction_in else line_direction_out), s')

  unfoldable pub fbiob_gpio_direction_input : ℕ → S → S
  fbiob_gpio_direction_input offset s =
      let (val, s') = gpio_csr_read (gpio_line_csr offset) s in
      gpio_csr_write (gpio_line_csr offset) (bit_or val tristate_ctrl) s'

  unfoldable pub fbiob_gpio_direction_output : (offset value : ℕ) → S → S
  fbiob_gpio_direction_output offset value s =
      let (direction, s') = fbiob_gpio_get_direction offset s in
      let (val, s'') = gpio_csr_read (gpio_line_csr offset) s' in
      if direction == line_direction_in
      then gpio_csr_write (gpio_line_csr offset)
          (put_level value (bit_and val (not_u32 tristate_ctrl))) s''
      else gpio_csr_write (gpio_line_csr offset) (put_level value val) s''
