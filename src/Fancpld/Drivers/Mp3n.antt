-- ===== src/Fancpld/Drivers/Mp3n.antt =====
-- kmods/minipack3n/mp3n_fancpld_i2c.c.
use fboss_bsp_kmods.Base.{ℕ, ℤ, ◌+◌, ◌/◌, ◌%◌, List, [], ◌∷◌, if◌then◌else◌, ◌==◌, Option}
use fboss_bsp_kmods.Print.{codes}
use fboss_bsp_kmods.Kernel.{Regmap, Io}
use fboss_bsp_kmods.Fan.{Sensor, Attr}
use fboss_bsp_kmods.Fancpld.{mcbfan_is_visible, mcbfan_read, mcbfan_write}
use fboss_bsp_kmods.Fancpld.{
  Macros, LedColor, WatchdogOps, HwmonOps, ExtraGroups, LedMethods, ChipInfo,
}
use fboss_bsp_kmods.Fancpld.{reg_tach_f_n, reg_tach_b_n, fan_wdt_ops, extra_groups, led_methods}
use fboss_bsp_kmods.Fancpld.Probe.{World, Answers, fancpld_i2c_probe_leds}

abbrev pub led_color_info : List LedColor
led_color_info =
    record { color = codes "blue"; reg_val = 1 }
    ∷ record { color = codes "red"; reg_val = 2 }
    ∷ record { color = codes "amber"; reg_val = 2 }
    ∷ []

abbrev pub fan_tray_num : ℕ
fan_tray_num = 8

-- The register of a tachometer channel.
abbrev pub tach_addr : ℕ → ℕ
tach_addr channel =
    let fn = channel / 2 + 1 in if channel % 2 == 0 then reg_tach_f_n fn else reg_tach_b_n fn

abbrev pub macros : Macros
macros = record {
  fan_pwm_max = 40;
  fan_speed_multiplier = 150;
  tach_addr = tach_addr;
  led_color_info = led_color_info;
}

-- The channels that hwmon is told of, and the fans with a file fanN_present.
abbrev pub chip_info : ChipInfo
chip_info = record {
  fan_channels = 16;
  pwm_channels = 8;
  present = 1 ∷ 2 ∷ 3 ∷ 4 ∷ 5 ∷ 6 ∷ 7 ∷ 8 ∷ [];
}

module _ {S : Type 0} (client : Regmap S) where
  abbrev pub wdt_ops : WatchdogOps S
  wdt_ops = fan_wdt_ops client

  abbrev pub hwmon_read : Sensor → Attr → ℕ → Io S ℤ
  hwmon_read = mcbfan_read client macros

  abbrev pub hwmon_write : Sensor → Attr → ℕ → ℤ → Io S (Unit {0})
  hwmon_write = mcbfan_write client macros

  abbrev pub hwmon_ops : HwmonOps S
  hwmon_ops = record { is_visible = mcbfan_is_visible; read = hwmon_read; write = hwmon_write }

  abbrev pub groups : ExtraGroups S
  groups = extra_groups client macros

  abbrev pub leds : LedMethods S
  leds = led_methods client

  abbrev pub probe : Answers → World → S → Option ℕ × World × S
  probe a w s = fancpld_i2c_probe_leds client a fan_tray_num led_color_info w s
