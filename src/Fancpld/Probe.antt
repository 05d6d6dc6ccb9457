-- ===== src/Fancpld/Probe.antt =====
-- The probes of the fan CPLD drivers of the platforms: what they register, in which order.
pub mod Register
mod Tests
use fboss_bsp_kmods.Base.{
  ℕ, zero, suc, ◌+◌, ◌-◌, Bool, not, Option, none, some, List, [], ◌∷◌, ◌++◌,
}
use fboss_bsp_kmods.Base.{if◌then◌else◌, Text}
use fboss_bsp_kmods.Print.{codes, print_dec}
use fboss_bsp_kmods.Kernel.{Regmap}
use fboss_bsp_kmods.Kernel.Errno.{enomem}
use fboss_bsp_kmods.Fancpld.{LedColor, reg_led, fan_wdt_stop}

-- `struct fan_led_data`.
pub record FanLed : Type 0 where
  pub name : Text
  pub reg_addr : ℕ
  pub reg_val : ℕ

-- What stands in the kernel because of a driver: its mutex, its hwmon device, its watchdog, its LEDs
-- and its table of register fields. All but the mutex are released with the device.
pub record World : Type 0 where
  pub mutexes : ℕ
  pub hwmon_devs : ℕ
  pub watchdogs : ℕ
  pub leds : List FanLed
  pub tables : ℕ

-- What the kernel answers: whether an allocation succeeds, and error codes, `none` for success.
pub record Answers : Type 0 where
  pub got_data : Bool
  pub register_hwmon : Option ℕ
  pub got_watchdog : Bool
  pub register_watchdog : Option ℕ
  pub init_table : Option ℕ
  pub register_led : FanLed → Option ℕ

abbrev pub led_of : ℕ → LedColor → FanLed
led_of fn c = record {
  name = codes "fan" ++ (print_dec fn ++ (codes ":" ++ (c.color ++ codes ":status")));
  reg_addr = reg_led fn;
  reg_val = c.reg_val;
}

-- The inner loop of `fan_leds_init`. A failure to set up the trigger of a LED is only logged.
pub register_colors : Answers → ℕ → List LedColor → World → Option ℕ × World
register_colors a fn [] w = (none, w)
register_colors a fn (c ∷ cs) w =
    let rest = register_colors a fn cs (record w { leds = w.leds ++ (led_of fn c ∷ []) }) in
    elim (a.register_led (led_of fn c)) [ some e ↦ (some e, w) | none ↦ rest ]

module _ {S : Type 0} (client : Regmap S) where
  -- The result of stopping the watchdog is dropped.
  pub fan_wdt_init : Answers → World → S → Option ℕ × World × S
  fan_wdt_init a w s =
      let stopped = (fan_wdt_stop client s).1 in
      if not a.got_watchdog then (some enomem, w, s) else elim a.register_watchdog [
        | some e ↦ (some e, w, stopped)
        | none ↦ (none, record w { watchdogs = w.watchdogs + 1 }, stopped)
      ]

  -- The outer loop of `fan_leds_init`, with `left` fans to go from fan `fn` on. The LEDs of a fan are
  -- first handed to the hardware; a failure of that is only logged.
  pub register_trays : Answers → List LedColor → ℕ → ℕ → World → S → Option ℕ × World × S
  register_trays a colors zero fn w s = (none, w, s)
  register_trays a colors (suc left) fn w s =
      let s' = (client.write (reg_led fn) 0 s).1 in
      let (ret, w') = register_colors a fn colors w in
      let rest = register_trays a colors left (fn + 1) w' s' in
      elim ret [ some e ↦ (some e, w', s') | none ↦ rest ]

  pub fan_leds_init : Answers → ℕ → List LedColor → World → S → Option ℕ × World × S
  fan_leds_init a fan_tray_num colors w s = register_trays a colors fan_tray_num 1 w s

  abbrev pub destroy_mutex : World → World
  destroy_mutex w = record w { mutexes = w.mutexes - 1 }

  -- The end of a probe: `exit_cleanup` on an error.
  abbrev pub conclude : Option ℕ × World × S → Option ℕ × World × S
  conclude (none, w, s) = (none, w, s)
  conclude (some e, w, s) = (some e, destroy_mutex w, s)

  -- One step of a probe after another.
  abbrev pub continue_with :
      Option ℕ × World × S → (World → S → Option ℕ × World × S) → Option ℕ × World × S
  continue_with (none, w, s) next = next w s
  continue_with (some e, w, s) next = (some e, w, s)

  -- From the allocation to the watchdog, the same in every probe.
  abbrev pub register_common : Answers → World → S → Option ℕ × World × S
  register_common a w s = elim a.register_hwmon [
    | some e ↦ (some e, record w { mutexes = w.mutexes + 1 }, s)
    | none ↦ fan_wdt_init a (record w { mutexes = w.mutexes + 1; hwmon_devs = w.hwmon_devs + 1 }) s
  ]

  -- The probe of a driver without LEDs.
  pub fancpld_i2c_probe : Answers → World → S → Option ℕ × World × S
  fancpld_i2c_probe a w s =
      if not a.got_data then (some enomem, w, s) else conclude (register_common a w s)

  -- The probe of a driver with LEDs.
  pub fancpld_i2c_probe_leds : Answers → ℕ → List LedColor → World → S → Option ℕ × World × S
  fancpld_i2c_probe_leds a fan_tray_num colors w s =
      if not a.got_data
      then (some enomem, w, s)
      else conclude (continue_with (register_common a w s) (fan_leds_init a fan_tray_num colors))

  abbrev pub table_then_leds : Answers → ℕ → List LedColor → World → S → Option ℕ × World × S
  table_then_leds a fan_tray_num colors w s = elim a.init_table [
    | some e ↦ (some e, w, s)
    | none ↦ fan_leds_init a fan_tray_num colors (record w { tables = w.tables + 1 }) s
  ]

  -- The probe of the PDB CPLD, which also has a table of register fields.
  pub pdbcpld_i2c_probe : Answers → ℕ → List LedColor → World → S → Option ℕ × World × S
  pdbcpld_i2c_probe a fan_tray_num colors w s =
      if not a.got_data
      then (some enomem, w, s)
      else conclude (continue_with (register_common a w s) (table_then_leds a fan_tray_num colors))

-- What the drivers do themselves when a device goes away; turning the triggers off is not modelled.
pub fancpld_i2c_remove : World → World
fancpld_i2c_remove w = record w { mutexes = w.mutexes - 1 }
