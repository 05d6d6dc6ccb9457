-- ===== src/PortLed/Tests.antt =====
-- Concrete runs of the LED of a port, and the theorems at them.
use fboss_bsp_kmods.Base.{ℕ, text_eq, ◌≡◌, arith, refl, true, false, none, [], ◌∷◌, pos}
use fboss_bsp_kmods.Print.{codes, print_dec}
use fboss_bsp_kmods.Mmio.Registers.{Words, words, word_at}
use fboss_bsp_kmods.Mmio.Kept.{words-IsKept}
use fboss_bsp_kmods.PortLed.{led_on_mask, turned_on, brightness_get, brightness_set}
use fboss_bsp_kmods.PortLed.Colors.{led, brightness_get-brightness_set}
use fboss_bsp_kmods.PortLed.Probe.{
  World, Answers, led_name, port_led_probe, init_leds, port_led_init,
}
use fboss_bsp_kmods.PortLed.Default.{port_led_probe_ok}

-- Every register is clear.
abbrev dark : Words
dark a = 0

abbrev amber : ℕ
amber = 6

abbrev blue : ℕ
blue = 2

-- Amber is turned off, though blue was on: nothing shows.
blue_lost :
    (brightness_get words (led words 0 (λ s. word_at s 0) (words-IsKept 0) blue) (
      brightness_set words
        (led words 0 (λ s. word_at s 0) (words-IsKept 0) amber)
        0
        (brightness_set words (led words 0 (λ s. word_at s 0) (words-IsKept 0) blue) 1 dark))).0
    ≡ false
unfolding brightness_get brightness_set turned_on
blue_lost = refl

brightness_get-brightness_set_example :
    (brightness_get words
      (led words 0 (λ s. word_at s 0) (words-IsKept 0) amber)
      (brightness_set words (led words 0 (λ s. word_at s 0) (words-IsKept 0) amber) 1 dark)).0
    ≡ true
brightness_get-brightness_set_example =
    brightness_get-brightness_set words 0 (λ s. word_at s 0) (words-IsKept 0) amber amber 1 dark
      (omega arith) (omega arith) (omega arith)

abbrev nothing : World
nothing = record { mutexes = 0; leds = [] }

abbrev granted : Answers
granted = record {
  got_priv = true;
  got_csr = true;
  map_csr = true;
  register_led = λ name. none;
  trigger_init = λ name. none;
}

port_led_probe_ok_example :
    let (ret, w, s) =
      port_led_probe words 0 granted (record { port_num = pos 3; led_idx = pos 1 }) nothing dark in
    (w ≡ record {
      mutexes = 1;
      leds =
          codes "port3_led1:amber:status"
          ∷ codes "port3_led1:blue:status"
          ∷ codes "port3_led1:green:status"
          ∷ [];
    })
    × (word_at s 0 ≡ 29)
unfolding port_led_probe led_on_mask led_name print_dec init_leds port_led_init text_eq
port_led_probe_ok_example =
    port_led_probe_ok words 0 (λ s. word_at s 0) (words-IsKept 0) granted 2 (pos 1) nothing dark
      (omega arith) refl
