-- ===== src/Fancpld/Equivalence.antt =====
-- The claim of kmods/fbfancpld_i2c.c, that it is a parameterized replacement for the fan CPLD drivers
-- of the platforms: with the right configuration its methods do what theirs do.
use fboss_bsp_kmods.Base.{ℕ, ◌≡◌, arith, refl, ℤ, pos, negsuc}
use fboss_bsp_kmods.Fan
use fboss_bsp_kmods.Fancpld
use fboss_bsp_kmods.Fancpld.{fan_wdt_ops, mcbfan_hwmon_ops, extra_groups}
use fboss_bsp_kmods.Kernel.{Regmap, Ret, ok, err, undefined}
use fboss_bsp_kmods.Fan.{
  FanConfig, Sensor, Attr, hwmon_fan, hwmon_pwm, other_sensor, fan_input, pwm_input, pwm_enable,
  other_attr,
}
use fboss_bsp_kmods.Fan.{tach_reg, fbfancpld_is_visible, fbfancpld_read, fbfancpld_write}
use fboss_bsp_kmods.Fan.{
  fan_input_read, pwm_input_read, pwm_enable_read, pwm_input_write, pwm_enable_write, fan_read,
  pwm_read, pwm_write,
}
use fboss_bsp_kmods.Fancpld.{Macros, ChipInfo, WatchdogOps, HwmonOps, ExtraGroups, LedMethods}
use fboss_bsp_kmods.Fancpld.{mcbfan_is_visible, mcbfan_read, mcbfan_write, mcbfan_fan_read}
use fboss_bsp_kmods.Fancpld.{
  mcbfan_pwm_input_read, mcbfan_pwm_enable_read, mcbfan_pwm_input_write, mcbfan_pwm_enable_write,
  mcbfan_pwm_read, mcbfan_pwm_write, mcbfan_fan_input_read,
}

-- A configuration that says what the macros of a driver say.
pub record Fits (m : Macros) (c : FanConfig) : Type 0 where
  pub limit : c.pwm_max ≡ m.fan_pwm_max
  pub multiplier : c.speed_multiplier ≡ pos m.fan_speed_multiplier
  pub tachometers : (channel : ℕ) → tach_reg c channel ≡ m.tach_addr channel

module _ {S : Type 0} (client : Regmap S) (m : Macros) (c : FanConfig) (fits : Fits m c) where
  pub read_same :
      (t : Sensor) (a : Attr) (channel : ℕ) (s : S)
      → mcbfan_read client m t a channel s ≡ fbfancpld_read client c t a channel s
  unfolding mcbfan_read mcbfan_fan_read mcbfan_pwm_read mcbfan_fan_input_read mcbfan_pwm_input_read
      mcbfan_pwm_enable_read fbfancpld_read fan_read pwm_read fan_input_read pwm_input_read
      pwm_enable_read
  read_same hwmon_fan fan_input channel s =
      ground (arith, fits.tachometers channel, fits.multiplier)
  read_same hwmon_fan _ channel s = refl
  read_same hwmon_pwm pwm_input channel s = ground (arith, fits.limit)
  read_same hwmon_pwm pwm_enable channel s = refl
  read_same hwmon_pwm _ channel s = refl
  read_same other_sensor _ channel s = refl

  pub write_same :
      (t : Sensor) (a : Attr) (channel : ℕ) (val : ℤ) (s : S)
      → mcbfan_write client m t a channel val s ≡ fbfancpld_write client c t a channel val s
  unfolding mcbfan_write mcbfan_pwm_write mcbfan_pwm_input_write mcbfan_pwm_enable_write
      fbfancpld_write pwm_write pwm_input_write pwm_enable_write
  write_same hwmon_fan _ channel val s = refl
  write_same hwmon_pwm pwm_input channel (pos n) s = ground (arith, fits.limit)
  write_same hwmon_pwm pwm_input channel (negsuc n) s = refl
  write_same hwmon_pwm pwm_enable channel (pos n) s = refl
  write_same hwmon_pwm pwm_enable channel (negsuc n) s = refl
  write_same hwmon_pwm _ channel val s = refl
  write_same other_sensor _ channel val s = refl

  pub boost_show_same :
      (s : S) → Fancpld.fan_boost_pwm_show client m s ≡ Fan.fan_boost_pwm_show client c s
  unfolding Fancpld.fan_boost_pwm_show Fan.fan_boost_pwm_show
  boost_show_same s = ground (arith, fits.limit)

  pub boost_store_same :
      (parsed : Ret ℤ) (count : ℕ) (s : S)
      → Fancpld.fan_boost_pwm_store client m parsed count s
        ≡ Fan.fan_boost_pwm_store client c parsed count s
  unfolding Fancpld.fan_boost_pwm_store Fan.fan_boost_pwm_store Fancpld.boost_byte Fan.boost_byte
  boost_store_same (ok (pos n)) count s = ground (arith, fits.limit)
  boost_store_same (ok (negsuc n)) count s = refl
  boost_store_same (err e) count s = refl
  boost_store_same undefined count s = refl

pub visible_same : (t : Sensor) (a : Attr) → mcbfan_is_visible t a ≡ fbfancpld_is_visible t a
unfolding mcbfan_is_visible fbfancpld_is_visible
visible_same hwmon_fan fan_input = refl
visible_same hwmon_fan pwm_input = refl
visible_same hwmon_fan pwm_enable = refl
visible_same hwmon_fan other_attr = refl
visible_same hwmon_pwm fan_input = refl
visible_same hwmon_pwm pwm_input = refl
visible_same hwmon_pwm pwm_enable = refl
visible_same hwmon_pwm other_attr = refl
visible_same other_sensor fan_input = refl
visible_same other_sensor pwm_input = refl
visible_same other_sensor pwm_enable = refl
visible_same other_sensor other_attr = refl
