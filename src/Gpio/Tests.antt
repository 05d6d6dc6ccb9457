-- ===== src/Gpio/Tests.antt =====
-- Concrete runs of the GPIO controller, and the theorem at them.
use fboss_bsp_kmods.Base.{◌≡◌, arith, refl, true}
use fboss_bsp_kmods.Bits.{bit}
use fboss_bsp_kmods.Mmio.Registers.{Words, words, word_at, words-IsWindow, words-IsReadable}
use fboss_bsp_kmods.Gpio.{
  gpio_line_csr, line_direction_in, fbiob_gpio_get, fbiob_gpio_direction_output,
}
use fboss_bsp_kmods.Gpio.{fbiob_gpio_get_direction, fbiob_gpio_direction_input}
use fboss_bsp_kmods.Gpio.Lines.{fbiob_gpio_direction_output_line}

-- Every line is an input, at a high level.
abbrev inputs : Words
inputs a = 0b101

driven_high : word_at (fbiob_gpio_direction_output words 3 1 inputs) 12 ≡ 0b110
unfolding fbiob_gpio_direction_output fbiob_gpio_get_direction
driven_high = refl

back_to_input :
    word_at (fbiob_gpio_direction_input words 3 (fbiob_gpio_direction_output words 3 1 inputs)) 12
    ≡ 0b111
unfolding fbiob_gpio_direction_input fbiob_gpio_direction_output fbiob_gpio_get_direction
back_to_input = refl

level : (fbiob_gpio_get words 3 inputs).0 ≡ true
unfolding fbiob_gpio_get
level = refl

fbiob_gpio_direction_output_line_example :
    (bit (word_at (fbiob_gpio_direction_output words 3 1 inputs) (gpio_line_csr 3)) 1 ≡ 1)
    × ((fbiob_gpio_get_direction words 3 (fbiob_gpio_direction_output words 3 1 inputs)).0
        ≡ line_direction_in)
fbiob_gpio_direction_output_line_example =
    fbiob_gpio_direction_output_line words-IsReadable (words-IsWindow 1024) 3 3 1 1 inputs
      (omega arith) (omega arith) (omega arith)
