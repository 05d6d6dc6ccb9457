-- ===== src/Fancpld.antt =====
-- The fan CPLD drivers of the platforms: kmods/montblanc/mp3_fancpld_i2c.c,
-- kmods/minipack3n/mp3n_fancpld_i2c.c, kmods/wedge800/w800_fancpld_i2c.c,
-- kmods/anacapa/anacapa_fancpld_i2c.c, kmods/icecube/icecube_fancpld_i2c.c,
-- kmods/tahansb/tahansb_fancpld_i2c.c, kmods/icetea/icetea_fancpld_i2c.c and
-- kmods/leh800b/leh800b_pdbcpld_i2c.c. Their methods have the same text but for the macros and for
-- how a tachometer channel is turned into a register: here is that text, over what differs;
-- `Fancpld.Drivers` is each driver.
pub mod Probe
pub mod Drivers
pub mod Equivalence
pub mod Configurations
pub mod Platforms
mod Tests
use fboss_bsp_kmods.Base.{ℕ, ◌+◌, ◌-◌, ◌*◌, ◌/◌, ◌%◌, ◌^◌, Bool, true, false, min, if◌then◌else◌}
use fboss_bsp_kmods.Base.{ltb, ◌==◌, ℤ, pos, negsuc, pos_part, ◌-ℤ◌, ◌*ℤ◌, List, bit_and, bit_or}
use fboss_bsp_kmods.Base.{Text, ◌++◌}
use fboss_bsp_kmods.Bits.{u8, test_bits}
use fboss_bsp_kmods.Print.{codes}
use fboss_bsp_kmods.Kernel.{Ret, ok, err, undefined, Io, pure, fail, ◌>>=◌, ◌>>◌, Regmap}
use fboss_bsp_kmods.Kernel.Errno.{einval, eopnotsupp}
use fboss_bsp_kmods.Fan.{
  Sensor, Attr, hwmon_fan, hwmon_pwm, other_sensor, fan_input, pwm_input, pwm_enable, other_attr,
}
use fboss_bsp_kmods.Fan.{int_of, u8_of_int, print_int}

-- FBMCB_REG_FAN_TACH_F_N, FBMCB_REG_FAN_TACH_B_N, FBMCB_REG_FAN_PWM, FBMCB_REG_FAN_LED and
-- FBMCB_REG_FAN_STATUS, for fans counted from 1.
abbrev pub reg_tach_f_n : ℕ → ℕ
reg_tach_f_n fn = 0x30 + (fn - 1) * 0x10

abbrev pub reg_tach_b_n : ℕ → ℕ
reg_tach_b_n fn = 0x31 + (fn - 1) * 0x10

abbrev pub reg_pwm : ℕ → ℕ
reg_pwm fn = 0x32 + (fn - 1) * 0x10

abbrev pub reg_led : ℕ → ℕ
reg_led fn = 0x34 + (fn - 1) * 0x10

abbrev pub reg_status : ℕ → ℕ
reg_status fn = 0x38 + (fn - 1) * 0x10

abbrev pub mode_mask : ℕ
mode_mask = 0x80

abbrev pub led_mask : ℕ
led_mask = 0b11

abbrev pub led_off : ℕ
led_off = 0x03

abbrev pub wdt_enable_bit : ℕ
wdt_enable_bit = 0x10

abbrev pub wdt_pet : ℕ
wdt_pet = 0x20

-- FAN_WDT_CTRL_0, FAN_WDT_CTRL_1, FAN_WDT_STA_REG and FAN_WDT_PWM.
abbrev pub wdt_ctrl_0 : ℕ
wdt_ctrl_0 = 0x1F

abbrev pub wdt_ctrl_1 : ℕ
wdt_ctrl_1 = 0x20

abbrev pub wdt_sta_reg : ℕ
wdt_sta_reg = 0x21

abbrev pub wdt_pwm : ℕ
wdt_pwm = 0x22

abbrev pub wdt_timeout_max : ℕ
wdt_timeout_max = 0xFF * 5

-- An entry of `led_color_info`.
pub record LedColor : Type 0 where
  pub color : Text
  pub reg_val : ℕ

-- What differs between the drivers: the macros, the register of a tachometer channel, and the colours
-- of the LEDs of a fan, none if the driver has no LEDs.
pub record Macros : Type 0 where
  pub fan_pwm_max : ℕ
  pub fan_speed_multiplier : ℕ
  pub tach_addr : ℕ → ℕ
  pub led_color_info : List LedColor

-- What a driver tells hwmon of, and its files fanN_present.
pub record ChipInfo : Type 0 where
  pub fan_channels : ℕ
  pub pwm_channels : ℕ
  pub present : List ℕ

-- `struct watchdog_ops`: `set_timeout` returns `wdd->timeout` with its write.
pub record WatchdogOps (S : Type 0) : Type 0 where
  pub start : Io S (Unit {0})
  pub stop : Io S (Unit {0})
  pub set_timeout : ℕ → ℕ × Io S (Unit {0})
  pub get_timeleft : S → ℕ × S
  pub ping : Io S (Unit {0})

-- `struct hwmon_ops`.
pub record HwmonOps (S : Type 0) : Type 0 where
  pub is_visible : Sensor → Attr → ℕ
  pub read : Sensor → Attr → ℕ → Io S ℤ
  pub write : Sensor → Attr → ℕ → ℤ → Io S (Unit {0})

-- The attribute groups: the files fanN_present and pwm_boost. `kstrtoint` is done.
pub record ExtraGroups (S : Type 0) : Type 0 where
  pub present_show : ℕ → S → Text × S
  pub boost_show : S → Text × S
  pub boost_store : Ret ℤ → ℕ → Io S ℕ

-- The methods of a LED with the register `reg_addr` and the value `reg_val`.
pub record LedMethods (S : Type 0) : Type 0 where
  pub brightness_get : (reg_addr reg_val : ℕ) → Io S Bool
  pub brightness_set : (reg_addr reg_val value : ℕ) → Io S (Unit {0})

pub mcbfan_is_visible : Sensor → Attr → ℕ
mcbfan_is_visible hwmon_fan fan_input = 0o444
mcbfan_is_visible hwmon_pwm pwm_input = 0o644
mcbfan_is_visible hwmon_pwm pwm_enable = 0o644
mcbfan_is_visible _ _ = 0

module _ {S : Type 0} (client : Regmap S) where
  pub fan_wdt_start : Io S (Unit {0})
  fan_wdt_start = client.write wdt_ctrl_0 wdt_enable_bit

  pub fan_wdt_stop : Io S (Unit {0})
  fan_wdt_stop = client.write wdt_ctrl_0 0

  pub fan_wdt_ping : Io S (Unit {0})
  fan_wdt_ping = client.write wdt_ctrl_0 (bit_or wdt_enable_bit wdt_pet)

  pub fan_wdt_set_timeout : ℕ → ℕ × Io S (Unit {0})
  fan_wdt_set_timeout timeout =
      let kept = min timeout wdt_timeout_max in
      let reg = u8 (kept / 5) in (kept, client.write wdt_ctrl_1 reg)

  pub fan_wdt_get_timeleft : S → ℕ × S
  fan_wdt_get_timeleft s =
      let (max_timeout, s') = client.read wdt_ctrl_1 s in
      let (counter, s'') = client.read wdt_sta_reg s' in
      (pos_part ((int_of max_timeout -ℤ int_of counter) *ℤ pos 5), s'')

  pub fan_wdt_ops : WatchdogOps S
  fan_wdt_ops = record {
    start = fan_wdt_start;
    stop = fan_wdt_stop;
    set_timeout = fan_wdt_set_timeout;
    get_timeleft = fan_wdt_get_timeleft;
    ping = fan_wdt_ping;
  }

  -- The read is used unchecked: of a negative code `-e` the lowest bit is that of `e`.
  pub fan_present_show : ℕ → S → Text × S
  fan_present_show fn s =
      let (reg_data, s') = client.read (reg_status fn) s in
      let absent : ℕ = elim reg_data [ ok v ↦ v % 2 | err e ↦ e % 2 | undefined ↦ 0 ] in
      ((if absent == 0 then codes "1\n" else codes "0\n"), s')

  -- `true` is LED_ON.
  pub brightness_get : (reg_addr reg_val : ℕ) → Io S Bool
  brightness_get reg_addr reg_val = do
    ret ← client.read reg_addr
    pure (u8 (bit_and ret led_mask) == reg_val)

  pub brightness_set : (reg_addr reg_val value : ℕ) → Io S (Unit {0})
  brightness_set reg_addr reg_val value =
      client.write reg_addr (if value == 0 then led_off else reg_val)

  pub led_methods : LedMethods S
  led_methods = record { brightness_get = brightness_get; brightness_set = brightness_set }

  module _ (m : Macros) where
    pub mcbfan_fan_input_read : ℕ → Io S ℤ
    mcbfan_fan_input_read channel = do
      reg_data ← client.read (m.tach_addr channel)
      pure (pos (reg_data * m.fan_speed_multiplier))

    pub mcbfan_fan_read : Attr → ℕ → Io S ℤ
    mcbfan_fan_read fan_input channel = mcbfan_fan_input_read channel
    mcbfan_fan_read _ channel = fail eopnotsupp

    pub mcbfan_pwm_input_read : ℕ → Io S ℤ
    mcbfan_pwm_input_read channel = do
      reg_data ← client.read (reg_pwm (channel + 1))
      pure (pos (if ltb m.fan_pwm_max reg_data then m.fan_pwm_max else reg_data))

    pub mcbfan_pwm_enable_read : ℕ → Io S ℤ
    mcbfan_pwm_enable_read channel = do
      reg_data ← client.read (reg_pwm (channel + 1))
      pure (if test_bits reg_data mode_mask then pos 0 else pos 1)

    pub mcbfan_pwm_read : Attr → ℕ → Io S ℤ
    mcbfan_pwm_read pwm_input channel = mcbfan_pwm_input_read channel
    mcbfan_pwm_read pwm_enable channel = mcbfan_pwm_enable_read channel
    mcbfan_pwm_read _ channel = fail eopnotsupp

    pub mcbfan_pwm_input_write : ℕ → ℤ → Io S (Unit {0})
    mcbfan_pwm_input_write channel (negsuc n) = fail einval
    mcbfan_pwm_input_write channel (pos val) = do
      let target_pwm = if ltb m.fan_pwm_max val then m.fan_pwm_max else val
      reg_data ← client.read (reg_pwm (channel + 1))
      client.write (reg_pwm (channel + 1)) (u8 (bit_or (bit_and reg_data mode_mask) target_pwm))

    pub mcbfan_pwm_enable_write : ℕ → ℤ → Io S (Unit {0})
    mcbfan_pwm_enable_write channel (negsuc n) = fail einval
    mcbfan_pwm_enable_write channel (pos val) =
        if ltb 1 val
        then fail einval
        else (client.read (reg_pwm (channel + 1)) >>= λ reg_data.
            client.write (reg_pwm (channel + 1)) (u8 (bit_or (val * 2 ^ 7) reg_data)))

    pub mcbfan_pwm_write : Attr → ℕ → ℤ → Io S (Unit {0})
    mcbfan_pwm_write pwm_input channel val = mcbfan_pwm_input_write channel val
    mcbfan_pwm_write pwm_enable channel val = mcbfan_pwm_enable_write channel val
    mcbfan_pwm_write _ channel val = fail eopnotsupp

    pub mcbfan_read : Sensor → Attr → ℕ → Io S ℤ
    mcbfan_read hwmon_fan attr channel = mcbfan_fan_read attr channel
    mcbfan_read hwmon_pwm attr channel = mcbfan_pwm_read attr channel
    mcbfan_read other_sensor attr channel = fail eopnotsupp

    pub mcbfan_write : Sensor → Attr → ℕ → ℤ → Io S (Unit {0})
    mcbfan_write hwmon_pwm attr channel val = mcbfan_pwm_write attr channel val
    mcbfan_write _ attr channel val = fail eopnotsupp

    pub mcbfan_hwmon_ops : HwmonOps S
    mcbfan_hwmon_ops = record {
      is_visible = mcbfan_is_visible;
      read = mcbfan_read;
      write = mcbfan_write;
    }

    pub fan_boost_pwm_show : S → Text × S
    fan_boost_pwm_show s =
        let (ret, s') = client.read wdt_pwm s in
        let shown : ℤ = elim ret [
          | ok v ↦ pos (if ltb m.fan_pwm_max v then m.fan_pwm_max else v)
          | err e ↦ int_of (err e)
          | undefined ↦ pos 0
        ] in
        (print_int shown ++ codes "\n", s')

    -- The byte that a value of pwm_boost is written as.
    pub boost_byte : ℤ → ℕ
    boost_byte (pos val) = u8 (if ltb m.fan_pwm_max val then m.fan_pwm_max else val)
    boost_byte (negsuc n) = u8_of_int (negsuc n)

    pub fan_boost_pwm_store : Ret ℤ → ℕ → Io S ℕ
    fan_boost_pwm_store (err e) count s = (err e, s)
    fan_boost_pwm_store undefined count s = (undefined, s)
    fan_boost_pwm_store (ok val) count s = (client.write wdt_pwm (boost_byte val) >> pure count) s

    pub extra_groups : ExtraGroups S
    extra_groups = record {
      present_show = fan_present_show;
      boost_show = fan_boost_pwm_show;
      boost_store = fan_boost_pwm_store;
    }
