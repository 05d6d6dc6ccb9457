-- ===== src/Fancpld/Drivers/Anacapa.antt =====
-- kmods/anacapa/anacapa_fancpld_i2c.c.
use fboss_bsp_kmods.Base.{ℕ, ℤ, ◌+◌, ◌/◌, ◌%◌, [], ◌∷◌, if◌then◌else◌, ◌==◌, Option}
use fboss_bsp_kmods.Kernel.{Regmap, Io}
use fboss_bsp_kmods.Fan.{Sensor, Attr}
use fboss_bsp_kmods.Fancpld.{mcbfan_is_visible, mcbfan_read, mcbfan_write}
use fboss_bsp_kmods.Fancpld.{Macros, WatchdogOps, HwmonOps, ExtraGroups, ChipInfo}
use fboss_bsp_kmods.Fancpld.{reg_tach_f_n, reg_tach_b_n, fan_wdt_ops, extra_groups}
use fboss_bsp_kmods.Fancpld.Probe.{World, Answers, fancpld_i2c_probe}

-- The register of a tachometer channel.
abbrev pub tach_addr : ℕ → ℕ
tach_addr channel =
    let fn = channel / 2 + 1 in if channel % 2 == 0 then reg_tach_f_n fn else reg_tach_b_n fn

abbrev pub macros : Macros
macros = record {
  fan_pwm_max = 64;
  fan_speed_multiplier = 300;
  tach_addr = tach_addr;
  led_color_info = [];
}

-- The channels that hwmon is told of, and the fans with a file fanN_present.
abbrev pub chip_info : ChipInfo
chip_info = record { fan_channels = 12; pwm_channels = 6; present = 1 ∷ 2 ∷ 3 ∷ 4 ∷ 5 ∷ 6 ∷ [] }

module _ {S : Type 0} (client : Regmap S) where
  abbrev pub wdt_ops : WatchdogOps S
  wdt_ops = fan_wdt_ops client

  abbrev pub hwmon_read : Sensor → Attr → ℕ → Io S ℤ
  hwmon_read = mcbfan_read client macros

  abbrev pub hwmon_write : Sensor → Attr → ℕ → ℤ → Io S (Unit {0})
  hwmon_write = mcbfan_write client macros

  abbrev pub hwmon_ops : HwmonOps S
  hwmon_ops = record { is_visible = mcbfan_is_visible; read = hwmon_read; write = hwmon_write }

  abbrev pub groups : ExtraGroups S
  groups = extra_groups client macros

  abbrev pub probe : Answers → World → S → Option ℕ × World × S
  probe a w s = fancpld_i2c_probe client a w s
