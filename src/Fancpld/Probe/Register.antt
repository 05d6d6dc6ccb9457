-- ===== src/Fancpld/Probe/Register.antt =====
-- What the probes of the fan CPLD drivers leave registered.
use mathlib.Core.List.{append_assoc, append-nil}
use fboss_bsp_kmods.Base.{
  ℕ, zero, suc, ◌+◌, ◌≡◌, arith, refl, sym, ap, ◌∙◌, List, [], ◌∷◌, ◌++◌, map,
}
use fboss_bsp_kmods.Base.{Option, none, some, Option-cases, inl, inr}
use fboss_bsp_kmods.Kernel.{Regmap}
use fboss_bsp_kmods.Fancpld.{LedColor, reg_led, fan_wdt_stop}
use fboss_bsp_kmods.Fancpld.Probe.{FanLed, World, Answers, led_of, register_colors, fan_wdt_init}
use fboss_bsp_kmods.Fancpld.Probe.{register_trays, fan_leds_init}
use fboss_bsp_kmods.Fancpld.Probe.{fancpld_i2c_probe, fancpld_i2c_probe_leds, pdbcpld_i2c_probe}

-- The LEDs of `n` fans from `fn` on, fan by fan and colour by colour.
abbrev pub tray_leds : List LedColor → ℕ → ℕ → List FanLed
tray_leds colors fn zero = []
tray_leds colors fn (suc n) = map (led_of fn) colors ++ tray_leds colors (fn + 1) n

abbrev add_leds : World → List FanLed → World
add_leds w leds = record w { leds = w.leds ++ leds }

colors_ok :
    (a : Answers) (fn : ℕ) (colors : List LedColor) (w : World)
    → (register_colors a fn colors w).0 ≡ none
    → (register_colors a fn colors w).1 ≡ add_leds w (map (led_of fn) colors)
unfolding register_colors
colors_ok a fn [] w h = ap (λ l. record w { leds = l }) (sym (append-nil w.leds))
colors_ok a fn (c ∷ cs) w h = elim (Option-cases (a.register_led (led_of fn c))) [
  | inl passed ↦
      let w' = add_leds w (led_of fn c ∷ []) in
      let rest = colors_ok a fn cs w' (ground (arith, passed, h)) in
      let joined =
        rest
        ∙ ap (λ l. record w { leds = l })
            (append_assoc w.leds (led_of fn c ∷ []) (map (led_of fn) cs)) in
      ground (arith, passed, joined)
  | inr (e, failed) ↦ absurd (ground (arith, failed, h))
]

colors_mutexes :
    (a : Answers) (fn : ℕ) (colors : List LedColor) (w : World)
    → (register_colors a fn colors w).1.mutexes ≡ w.mutexes
unfolding register_colors
colors_mutexes a fn [] w = refl
colors_mutexes a fn (c ∷ cs) w =
    ground (arith, colors_mutexes a fn cs (add_leds w (led_of fn c ∷ [])))

-- How many mutexes a result stands for.
abbrev pub mutex_of : Option ℕ → ℕ
mutex_of none = 1
mutex_of (some e) = 0

module _ {S : Type 0} (client : Regmap S) (a : Answers) (colors : List LedColor) where
  trays_ok :
      (n fn : ℕ) (w : World) (s : S)
      → (register_trays client a colors n fn w s).0 ≡ none
      → (register_trays client a colors n fn w s).1 ≡ add_leds w (tray_leds colors fn n)
  unfolding register_trays
  trays_ok zero fn w s h = ap (λ l. record w { leds = l }) (sym (append-nil w.leds))
  trays_ok (suc n) fn w s h =
      let s' = (client.write (reg_led fn) 0 s).1 in
      let one = register_colors a fn colors w in
      elim (Option-cases one.0) [
        | inl passed ↦
            let first = colors_ok a fn colors w passed in
            let rest = trays_ok n (fn + 1) one.1 s' (ground (arith, passed, h)) in
            let joined : (register_trays client a colors n (fn + 1) one.1 s').1
                ≡ add_leds w (tray_leds colors fn (suc n)) =
              rest
              ∙ ap (λ (v : World). add_leds v (tray_leds colors (fn + 1) n)) first
              ∙ ap (λ l. record w { leds = l })
                  (append_assoc w.leds (map (led_of fn) colors) (tray_leds colors (fn + 1) n)) in
            ground (arith, passed, joined)
        | inr (e, failed) ↦ absurd (ground (arith, failed, h))
      ]

  trays_mutexes :
      (n fn : ℕ) (w : World) (s : S)
      → (register_trays client a colors n fn w s).1.mutexes ≡ w.mutexes
  unfolding register_trays
  trays_mutexes zero fn w s = refl
  trays_mutexes (suc n) fn w s =
      let s' = (client.write (reg_led fn) 0 s).1 in
      let one = register_colors a fn colors w in
      ground (arith, colors_mutexes a fn colors w, trays_mutexes n (fn + 1) one.1 s')

  -- A probe of a fan CPLD driver with LEDs that succeeds registers one mutex, one hwmon device,
  -- one watchdog, and the LEDs of its fans, fan by fan and colour by colour.
  pub fancpld_i2c_probe_leds_ok :
      (n : ℕ) (w : World) (s : S)
      → (fancpld_i2c_probe_leds client a n colors w s).0 ≡ none
      → (fancpld_i2c_probe_leds client a n colors w s).1 ≡ record w {
        mutexes = w.mutexes + 1;
        hwmon_devs = w.hwmon_devs + 1;
        watchdogs = w.watchdogs + 1;
        leds = w.leds ++ tray_leds colors 1 n;
      }
  unfolding fancpld_i2c_probe_leds fan_wdt_init fan_leds_init
  fancpld_i2c_probe_leds_ok n w s h =
      let begun = record w {
        mutexes = w.mutexes + 1;
        hwmon_devs = w.hwmon_devs + 1;
        watchdogs = w.watchdogs + 1;
      } in
      ground (arith, trays_ok n 1 begun (fan_wdt_stop client s).1)

  -- Each kind of probe of a fan CPLD driver leaves one more mutex if it succeeds and none if it
  -- fails, whatever fails.
  pub probes_mutexes :
      (n : ℕ) (w : World) (s : S)
      → (let (ret, w', s') = fancpld_i2c_probe client a w s in
          w'.mutexes ≡ w.mutexes + mutex_of ret)
        × (let (ret, w', s') = fancpld_i2c_probe_leds client a n colors w s in
            w'.mutexes ≡ w.mutexes + mutex_of ret)
        × (let (ret, w', s') = pdbcpld_i2c_probe client a n colors w s in
            w'.mutexes ≡ w.mutexes + mutex_of ret)
  unfolding fancpld_i2c_probe fancpld_i2c_probe_leds pdbcpld_i2c_probe fan_wdt_init fan_leds_init
  probes_mutexes n w s =
      let begun = record w {
        mutexes = w.mutexes + 1;
        hwmon_devs = w.hwmon_devs + 1;
        watchdogs = w.watchdogs + 1;
      } in
      let s' = (fan_wdt_stop client s).1 in
      (
        ground arith,
        ground (arith, trays_mutexes n 1 begun s'),
        ground (arith, trays_mutexes n 1 (record begun { tables = w.tables + 1 }) s'),
      )
