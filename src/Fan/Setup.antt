-- ===== src/Fan/Setup.antt =====
-- kmods/fbfancpld_i2c.c: the configuration of the fan CPLD by ioctl, and what it registers.
pub mod Once
mod Tests
use fboss_bsp_kmods.Base.{
  ℕ, zero, suc, ◌+◌, ◌-◌, ◌*◌, ◌^◌, Bool, true, false, not, ◌||◌, Option, none, some,
}
use fboss_bsp_kmods.Base.{if◌then◌else◌, ltb, ◌==◌, ℤ, pos, ◌-ℤ◌, List, [], ◌∷◌}
use fboss_bsp_kmods.Kernel.Errno.{einval, ebusy, efault, enomem, enotty}
use fboss_bsp_kmods.Kernel.{Regmap}
use fboss_bsp_kmods.Fan.{FanConfig, fan_wdt_stop, reg_fan_led}

abbrev pub max_fans : ℕ
max_fans = 8

-- `struct fbfancpld_ioctl_config`, five `u32`.
pub record IoctlConfig : Type 0 where
  pub num_fans : ℕ
  pub pwm_max : ℕ
  pub speed_multiplier : ℕ
  pub has_rear_tach : ℕ
  pub has_leds : ℕ

-- A LED that is registered: the fan it belongs to, the value that lights it.
pub record FanLed : Type 0 where
  pub fan : ℕ
  pub reg_val : ℕ

-- `struct fbfancpld_data`, with what is registered in its name: the hwmon devices, the watchdogs
-- and the LEDs. `devm_` resources stay until the device goes away.
pub record FanData : Type 0 where
  pub configured : Bool
  pub config : FanConfig
  pub hwmon_devs : ℕ
  pub watchdogs : ℕ
  pub leds : List FanLed
  pub num_leds : ℕ

-- What the kernel answers: error codes, `none` for success, whether an allocation succeeds, and the
-- code for the registration of a LED.
pub record Answers : Type 0 where
  pub register_hwmon : Option ℕ
  pub got_watchdog : Bool
  pub register_watchdog : Option ℕ
  pub got_leds : Bool
  pub register_led : FanLed → Option ℕ

pub fbfancpld_validate_config : IoctlConfig → Option ℕ
fbfancpld_validate_config u =
    if (u.num_fans == 0) || ltb max_fans u.num_fans
    then some einval
    else if (u.pwm_max == 0) || ltb 255 u.pwm_max
    then some einval
    else if u.speed_multiplier == 0
    then some einval
    else none

-- The values of `led_color_info`, blue and amber.
abbrev pub led_values : List ℕ
led_values = 1 ∷ 2 ∷ []

-- The inner loop of `fan_leds_init`: the LEDs of one fan. A failure to set up the trigger of a LED
-- is only logged.
pub register_leds : Answers → ℕ → List ℕ → FanData → Option ℕ × FanData
register_leds a fn [] d = (none, d)
register_leds a fn (v ∷ vs) d =
    let led : FanLed = record { fan = fn; reg_val = v } in
    let rest = register_leds a fn vs (record d { leds = led ∷ d.leds }) in
    elim (a.register_led led) [ some e ↦ (some e, d) | none ↦ rest ]

-- A `u32` as an `int`.
abbrev pub int_of_u32 : ℕ → ℤ
int_of_u32 n = if ltb n (2 ^ 31) then pos n else pos n -ℤ pos (2 ^ 32)

abbrev pub config_of : IoctlConfig → FanConfig
config_of u = record {
  num_fans = u.num_fans;
  pwm_max = u.pwm_max;
  speed_multiplier = int_of_u32 u.speed_multiplier;
  has_rear_tach = not (u.has_rear_tach == 0);
  has_leds = not (u.has_leds == 0);
}

pub data Command : Type 0 where
  configure : Answers → Option IoctlConfig → Command
  other : Command

module _ {S : Type 0} (client : Regmap S) where
  -- The result of stopping the watchdog is dropped.
  pub fan_wdt_init : Answers → FanData → S → Option ℕ × FanData × S
  fan_wdt_init a d s =
      let stopped = (fan_wdt_stop client s).1 in
      if not a.got_watchdog then (some enomem, d, s) else elim a.register_watchdog [
        | some e ↦ (some e, d, stopped)
        | none ↦ (none, record d { watchdogs = d.watchdogs + 1 }, stopped)
      ]

  -- The outer loop of `fan_leds_init`, with `left` fans to go from fan `fn` on. The register of a
  -- fan's LEDs is first handed to the hardware (FAN_LED_HW_CTRL); a failure is only logged.
  pub register_fans : Answers → ℕ → ℕ → FanData → S → Option ℕ × FanData × S
  register_fans a zero fn d s = (none, d, s)
  register_fans a (suc left) fn d s =
      let s' = (client.write (reg_fan_led fn) 0 s).1 in
      let (ret, d') = register_leds a fn led_values d in
      let rest = register_fans a left (fn + 1) d' s' in
      elim ret [ some e ↦ (some e, d', s') | none ↦ rest ]

  pub fan_leds_init : Answers → FanData → S → Option ℕ × FanData × S
  fan_leds_init a d s =
      let d' = record d { num_leds = d.config.num_fans * 2 } in
      if not a.got_leds then (some enomem, d', s) else register_fans a d.config.num_fans 1 d' s

  pub fbfancpld_apply_config : Answers → FanData → S → Option ℕ × FanData × S
  fbfancpld_apply_config a d s = elim a.register_hwmon [
    | some e ↦ (some e, d, s)
    | none ↦
        let (ret, d', s') = fan_wdt_init a (record d { hwmon_devs = d.hwmon_devs + 1 }) s in
        elim ret [
          | some e ↦ (some e, d', s')
          | none ↦ if d'.config.has_leds then fan_leds_init a d' s' else (none, d', s')
        ]
  ]

  -- What follows the check of `configured`.
  pub configure_fresh : Answers → IoctlConfig → FanData → S → Option ℕ × FanData × S
  configure_fresh a u d s =
      let (ret, d', s') = fbfancpld_apply_config a (record d { config = config_of u }) s in
      elim ret [ some e ↦ (some e, d', s') | none ↦ (none, record d' { configured = true }, s') ]

  -- The configuration is `none` if it cannot be copied from user space.
  pub fbfancpld_ioctl_configure :
      Answers → Option IoctlConfig → FanData → S → Option ℕ × FanData × S
  fbfancpld_ioctl_configure a none d s = (some efault, d, s)
  fbfancpld_ioctl_configure a (some u) d s = elim (fbfancpld_validate_config u) [
    | some e ↦ (some e, d, s)
    | none ↦ if d.configured then (some ebusy, d, s) else configure_fresh a u d s
  ]

  pub fbfancpld_cdev_ioctl : Command → FanData → S → Option ℕ × FanData × S
  fbfancpld_cdev_ioctl (configure a u) d s = fbfancpld_ioctl_configure a u d s
  fbfancpld_cdev_ioctl other d s = (some enotty, d, s)

  -- A sequence of ioctls, with what each returns.
  pub run_ioctls : List Command → FanData → S → List (Option ℕ) × FanData × S
  run_ioctls [] d s = ([], d, s)
  run_ioctls (c ∷ cs) d s =
      let (ret, d', s') = fbfancpld_cdev_ioctl c d s in
      let (rets, d'', s'') = run_ioctls cs d' s' in (ret ∷ rets, d'', s'')
