-- ===== src/Fancpld/Drivers/Leh800b.antt =====
-- kmods/leh800b/leh800b_pdbcpld_i2c.c.
use fboss_bsp_kmods.Base.{ℕ, ℤ, ◌+◌, List, [], ◌∷◌, Option}
use fboss_bsp_kmods.Print.{codes}
use fboss_bsp_kmods.Kernel.{Regmap, Io}
use fboss_bsp_kmods.Fan.{Sensor, Attr}
use fboss_bsp_kmods.Fancpld.{mcbfan_is_visible, mcbfan_read, mcbfan_write}
use fboss_bsp_kmods.Fancpld.{
  Macros, LedColor, WatchdogOps, HwmonOps, ExtraGroups, LedMethods, ChipInfo,
}
use fboss_bsp_kmods.Fancpld.{reg_tach_f_n, fan_wdt_ops, extra_groups, led_methods}
use fboss_bsp_kmods.Fancpld.Probe.{World, Answers, pdbcpld_i2c_probe}

abbrev pub led_color_info : List LedColor
led_color_info =
    record { color = codes "blue"; reg_val = 1 }
    ∷ record { color = codes "amber"; reg_val = 2 }
    ∷ []

abbrev pub fan_tray_num : ℕ
fan_tray_num = 8

-- The register of a tachometer channel.
abbrev pub tach_addr : ℕ → ℕ
tach_addr channel = reg_tach_f_n (channel + 1)

abbrev pub macros : Macros
macros = record {
  fan_pwm_max = 64;
  fan_speed_multiplier = 300;
  tach_addr = tach_addr;
  led_color_info = led_color_info;
}

-- The channels that hwmon is told of, and the fans with a file fanN_present.
abbrev pub chip_info : ChipInfo
chip_info = record {
  fan_channels = 8;
  pwm_channels = 8;
  present = 1 ∷ 2 ∷ 3 ∷ 4 ∷ 5 ∷ 6 ∷ 7 ∷ 8 ∷ [];
}

module _ {S : Type 0} (client : Regmap S) where
  abbrev pub wdt_ops : WatchdogOps S
  wdt_ops = fan_wdt_ops client

  abbrev pub hwmon_read : Sensor → Attr → ℕ → Io S ℤ
  hwmon_read = mcbfan_read client macros

  abbrev pub hwmon_write : Sensor → Attr → ℕ → ℤ → Io S (Unit {0})
  hwmon_write = mcbfan_write client macros

  abbrev pub hwmon_ops : HwmonOps S
  hwmon_ops = record { is_visible = mcbfan_is_visible; read = hwmon_read; write = hwmon_write }

  abbrev pub groups : ExtraGroups S
  groups = extra_groups client macros

  abbrev pub leds : LedMethods S
  leds = led_methods client

  abbrev pub probe : Answers → World → S → Option ℕ × World × S
  probe a w s = pdbcpld_i2c_probe client a fan_tray_num led_color_info w s
