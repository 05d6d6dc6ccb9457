-- ===== src/Fan/Setup/Once.antt =====
-- A fan CPLD is configured once, with a configuration in range, and then stays as it is.
use fboss_bsp_kmods.Base.{ℕ, zero, suc, ◌+◌, ◌*◌, ◌≤◌, ◌<◌, ◌≡◌, ◌≢◌, arith, refl, true, false}
use fboss_bsp_kmods.Base.{Option, none, some, List, [], ◌∷◌, inl, inr, ap, ◌∙◌}
use fboss_bsp_kmods.Base.{Option-cases}
use fboss_bsp_kmods.Kernel.{Regmap}
use fboss_bsp_kmods.Fan.{fan_wdt_stop, reg_fan_led}
use fboss_bsp_kmods.Fan.Setup.{IoctlConfig, FanData, FanLed, Answers, Command, configure, other}
use fboss_bsp_kmods.Fan.Setup.{
  fbfancpld_validate_config, fan_wdt_init, register_leds, register_fans,
}
use fboss_bsp_kmods.Fan.Setup.{fan_leds_init, fbfancpld_apply_config, configure_fresh, config_of}
use fboss_bsp_kmods.Fan.Setup.{
  fbfancpld_ioctl_configure, fbfancpld_cdev_ioctl, led_values, run_ioctls,
}

-- What registering LEDs leaves alone.
abbrev Keeps : FanData → FanData → Type 0
Keeps d d' =
    (d'.configured ≡ d.configured)
    × (d'.config ≡ d.config)
    × (d'.hwmon_devs ≡ d.hwmon_devs)
    × (d'.watchdogs ≡ d.watchdogs)

register_leds-Keeps :
    (a : Answers) (fn : ℕ) (vs : List ℕ) (d : FanData) → Keeps d (register_leds a fn vs d).1
unfolding register_leds
register_leds-Keeps a fn [] d = (refl, refl, refl, refl)
register_leds-Keeps a fn (v ∷ vs) d =
    let led : FanLed = record { fan = fn; reg_val = v } in
    ground (arith, register_leds-Keeps a fn vs (record d { leds = led ∷ d.leds }))

-- How many of the results are successes.
abbrev pub successes : List (Option ℕ) → ℕ
successes [] = 0
successes (none ∷ rs) = suc (successes rs)
successes (some e ∷ rs) = successes rs

module _ {S : Type 0} (client : Regmap S) where
  register_fans-Keeps :
      (a : Answers) (left fn : ℕ) (d : FanData) (s : S)
      → Keeps d (register_fans client a left fn d s).1
  unfolding register_fans
  register_fans-Keeps a zero fn d s = (refl, refl, refl, refl)
  register_fans-Keeps a (suc left) fn d s =
      let s' = (client.write (reg_fan_led fn) 0 s).1 in
      let d' = (register_leds a fn led_values d).1 in
      ground
        (arith, register_leds-Keeps a fn led_values d, register_fans-Keeps a left (fn + 1) d' s')

  -- The data with which the LEDs are registered.
  abbrev lit : FanData → FanData
  lit d = record d {
    hwmon_devs = d.hwmon_devs + 1;
    watchdogs = d.watchdogs + 1;
    num_leds = d.config.num_fans * 2;
  }

  -- What a configuration that is applied with no error has registered.
  apply_ok :
      (a : Answers) (d : FanData) (s : S)
      → (fbfancpld_apply_config client a d s).0 ≡ none
      → let d' = (fbfancpld_apply_config client a d s).1 in
        (d'.config ≡ d.config)
        × (d'.hwmon_devs ≡ d.hwmon_devs + 1)
        × (d'.watchdogs ≡ d.watchdogs + 1)
  unfolding fbfancpld_apply_config fan_wdt_init fan_leds_init
  apply_ok a d s h =
      ground (arith, register_fans-Keeps a d.config.num_fans 1 (lit d) (fan_wdt_stop client s).1)

  apply_configured :
      (a : Answers) (d : FanData) (s : S)
      → (fbfancpld_apply_config client a d s).1.configured ≡ d.configured
  unfolding fbfancpld_apply_config fan_wdt_init fan_leds_init
  apply_configured a d s =
      ground (arith, register_fans-Keeps a d.config.num_fans 1 (lit d) (fan_wdt_stop client s).1)

  configure_fresh_ok :
      (a : Answers) (u : IoctlConfig) (d : FanData) (s : S)
      → (configure_fresh client a u d s).0 ≡ none
      → let d' = (configure_fresh client a u d s).1 in
        (d'.configured ≡ true)
        × (d'.config ≡ config_of u)
        × (d'.hwmon_devs ≡ d.hwmon_devs + 1)
        × (d'.watchdogs ≡ d.watchdogs + 1)
  unfolding configure_fresh
  configure_fresh_ok a u d s h = ground (arith, apply_ok a (record d { config = config_of u }) s)

  configure_fresh_err :
      (a : Answers) (u : IoctlConfig) (d : FanData) (s : S) (e : ℕ)
      → (configure_fresh client a u d s).0 ≡ some e
      → (configure_fresh client a u d s).1.configured ≡ d.configured
  unfolding configure_fresh
  configure_fresh_err a u d s e h =
      ground (arith, apply_configured a (record d { config = config_of u }) s)

  -- Once it is configured, a fan CPLD and its hardware stay as they are whatever ioctl follows,
  -- and that ioctl does not succeed.
  pub fbfancpld_cdev_ioctl_configured :
      (c : Command) (d : FanData) (s : S)
      → d.configured ≡ true
      → let (ret, d', s') = fbfancpld_cdev_ioctl client c d s in (ret ≢ none) × (d' ≡ d) × (s' ≡ s)
  unfolding fbfancpld_cdev_ioctl fbfancpld_ioctl_configure
  fbfancpld_cdev_ioctl_configured (configure a none) d s h =
      (ground arith, ground arith, ground arith)
  fbfancpld_cdev_ioctl_configured (configure a (some u)) d s h =
      (ground arith, ground arith, ground arith)
  fbfancpld_cdev_ioctl_configured other d s h = (ground arith, ground arith, ground arith)

  -- A configuration ioctl that succeeds found the fan CPLD not configured and leaves it
  -- configured as requested, with 1 to 8 fans and a PWM limit of 1 to 255, and with one more
  -- hwmon device and one more watchdog registered.
  pub fbfancpld_ioctl_configure_ok :
      (a : Answers) (u : IoctlConfig) (d : FanData) (s : S)
      → (fbfancpld_ioctl_configure client a (some u) d s).0 ≡ none
      → let d' = (fbfancpld_ioctl_configure client a (some u) d s).1 in
        (d.configured ≡ false)
        × (d'.configured ≡ true)
        × (d'.config ≡ config_of u)
        × (0 < u.num_fans)
        × (u.num_fans ≤ 8)
        × (0 < u.pwm_max)
        × (u.pwm_max ≤ 255)
        × (d'.hwmon_devs ≡ d.hwmon_devs + 1)
        × (d'.watchdogs ≡ d.watchdogs + 1)
  unfolding fbfancpld_ioctl_configure fbfancpld_validate_config
  fbfancpld_ioctl_configure_ok a u d s h = ground (arith, configure_fresh_ok a u d s)

  run_configured :
      (cs : List Command) (d : FanData) (s : S)
      → d.configured ≡ true
      → (successes (run_ioctls client cs d s).0 ≡ 0) × ((run_ioctls client cs d s).1 ≡ d)
  unfolding run_ioctls
  run_configured [] d s h = (refl, refl)
  run_configured (c ∷ cs) d s h =
      let (refused, same, still) = fbfancpld_cdev_ioctl_configured c d s h in
      let r = fbfancpld_cdev_ioctl client c d s in
      ground (arith, run_configured cs r.1 r.2 (ap (λ (x : FanData). x.configured) same ∙ h))

  ioctl_success :
      (c : Command) (d : FanData) (s : S)
      → (fbfancpld_cdev_ioctl client c d s).0 ≡ none
      → (fbfancpld_cdev_ioctl client c d s).1.configured ≡ true
  unfolding fbfancpld_cdev_ioctl
  ioctl_success (configure a none) d s h = unfold fbfancpld_ioctl_configure in ground arith
  ioctl_success (configure a (some u)) d s h = (fbfancpld_ioctl_configure_ok a u d s h).1
  ioctl_success other d s h = ground arith

  -- In any sequence of ioctls on a fan CPLD at most one succeeds.
  pub run_ioctls_once :
      (cs : List Command) (d : FanData) (s : S) → successes (run_ioctls client cs d s).0 ≤ 1
  unfolding run_ioctls
  run_ioctls_once [] d s = omega arith
  run_ioctls_once (c ∷ cs) d s =
      let r = fbfancpld_cdev_ioctl client c d s in
      elim (Option-cases r.0) [
        | inl succeeded ↦ ground (arith, run_configured cs r.1 r.2 (ioctl_success c d s succeeded))
        | inr (e, failed) ↦ ground (arith, run_ioctls_once cs r.1 r.2)
      ]

  -- On a fan CPLD that is not configured, a valid configuration without LEDs that fails at the
  -- registration of the watchdog and is then repeated with success leaves two more hwmon devices
  -- registered.
  pub run_ioctls_second_hwmon :
      (a b : Answers) (u : IoctlConfig) (d : FanData) (s : S) (e : ℕ)
      → d.configured ≡ false
      → fbfancpld_validate_config u ≡ none
      → u.has_leds ≡ 0
      → a.register_hwmon ≡ none
      → a.got_watchdog ≡ true
      → a.register_watchdog ≡ some e
      → b.register_hwmon ≡ none
      → b.got_watchdog ≡ true
      → b.register_watchdog ≡ none
      → let (rets, d', s') =
          run_ioctls client (configure a (some u) ∷ configure b (some u) ∷ []) d s in
        (rets ≡ some e ∷ none ∷ []) × (d'.configured ≡ true) × (d'.hwmon_devs ≡ d.hwmon_devs + 2)
  unfolding run_ioctls fbfancpld_cdev_ioctl fbfancpld_ioctl_configure configure_fresh
      fbfancpld_apply_config fan_wdt_init
  run_ioctls_second_hwmon a b u d s e h1 h2 h3 h4 h5 h6 h7 h8 h9 =
      (ground arith, ground arith, ground arith)
