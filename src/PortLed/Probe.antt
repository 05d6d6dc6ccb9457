-- ===== src/PortLed/Probe.antt =====
-- Setting up and removing the LEDs of a port, in kmods/fboss_iob_led_aux.c.
use fboss_bsp_kmods.Base.{
  ℕ, zero, suc, ◌+◌, ◌-◌, Bool, not, Option, none, some, List, [], ◌∷◌, ◌++◌,
}
use fboss_bsp_kmods.Base.{ℤ, pos, negsuc, if◌then◌else◌, Text}
use fboss_bsp_kmods.Print.{codes, print_dec}
use fboss_bsp_kmods.Kernel.Errno.{einval, enomem, ebusy}
use fboss_bsp_kmods.Mmio.{Mmio}
use fboss_bsp_kmods.PortLed.{led_on_mask, pled_colors, turned_on}

-- `struct fbiob_led_data`.
pub record LedData : Type 0 where
  pub port_num : ℤ
  pub led_idx : ℤ

-- What stands in the kernel because of a port: its mutex, and its LEDs, which are released with the
-- device.
pub record World : Type 0 where
  pub mutexes : ℕ
  pub leds : List Text

-- What the kernel answers: whether memory, region and mapping are granted, and error codes, `none`
-- for success. `trigger_init` is `led_trigger_init`.
pub record Answers : Type 0 where
  pub got_priv : Bool
  pub got_csr : Bool
  pub map_csr : Bool
  pub register_led : Text → Option ℕ
  pub trigger_init : Text → Option ℕ

-- `snprintf` of the name, for a port number that is positive.
unfoldable pub led_name : (port : ℕ) → ℤ → (color : Text) → Text
led_name port (pos (suc i)) color =
    codes "port"
    ++ (print_dec port
        ++ (codes "_led" ++ (print_dec (suc i) ++ (codes ":" ++ (color ++ codes ":status")))))
led_name port idx color =
    codes "port" ++ (print_dec port ++ (codes "_led:" ++ (color ++ codes ":status")))

module _ {S : Type 0} (io : Mmio S) (mmio_csr : ℕ) where
  unfoldable pub port_led_init : Answers → (port : ℕ) → ℤ → Text → World → S → Option ℕ × World × S
  port_led_init a port idx color w s = elim (led_on_mask color) [
    | none ↦ (some einval, w, s)
    | some mask ↦
        let name = led_name port idx color in
        let (val, s') = io.readl mmio_csr s in
        let shown = io.writel mmio_csr (turned_on mask val) s' in
        elim (a.register_led name) [
          | some e ↦ (some e, w, shown)
          | none ↦ (a.trigger_init name, record w { leds = w.leds ++ (name ∷ []) }, shown)
        ]
  ]

  -- The loop of `port_led_probe` over `pled_colors`.
  unfoldable pub init_leds : Answers → (port : ℕ) → ℤ → List Text → World → S → Option ℕ × World × S
  init_leds a port idx [] w s = (none, w, s)
  init_leds a port idx (color ∷ colors) w s =
      let (ret, w', s') = port_led_init a port idx color w s in
      let rest = init_leds a port idx colors w' s' in
      elim ret [ some e ↦ (some e, w', s') | none ↦ rest ]

  pub port_led_remove : World → World
  port_led_remove w = record w { mutexes = w.mutexes - 1 }

  -- The end of a probe: the label `error`.
  abbrev pub conclude : Option ℕ × World × S → Option ℕ × World × S
  conclude (none, w, s) = (none, w, s)
  conclude (some e, w, s) = (some e, record w { mutexes = w.mutexes - 1 }, s)

  unfoldable pub port_led_probe : Answers → LedData → World → S → Option ℕ × World × S
  port_led_probe a d w s = elim d.port_num [
    | negsuc n ↦ (some einval, w, s)
    | pos zero ↦ (some einval, w, s)
    | pos (suc n) ↦
        if not a.got_priv
        then (some enomem, w, s)
        else if not a.got_csr
        then (some ebusy, w, s)
        else if not a.map_csr
        then (some enomem, w, s)
        else conclude
            (init_leds a (suc n) d.led_idx pled_colors (record w { mutexes = w.mutexes + 1 }) s)
  ]
