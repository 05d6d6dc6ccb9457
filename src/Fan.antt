-- ===== src/Fan.antt =====
-- kmods/fbfancpld_i2c.c: the generic fan CPLD. Here the registers, the watchdog and the methods of
-- hwmon, sysfs and the LEDs; `Fan.Setup` is the configuration by ioctl.
pub mod Setup
pub mod Pwm
pub mod Tach
pub mod Watchdog
mod Tests
use fboss_bsp_kmods.Base.{ℕ, ◌+◌, ◌-◌, ◌*◌, ◌/◌, ◌%◌, ◌^◌, Bool, true, false, min, if◌then◌else◌}
use fboss_bsp_kmods.Base.{
  ltb, ◌==◌, ◌||◌, not, ℤ, pos, negsuc, pos_part, ◌-ℤ◌, ◌*ℤ◌, Option, none, some,
}
use fboss_bsp_kmods.Base.{bit_and, bit_or, Text, ◌++◌, is_negative}
use fboss_bsp_kmods.Bits.{u8, test_bits}
use fboss_bsp_kmods.Print.{codes, print_dec}
use fboss_bsp_kmods.Kernel.{Ret, ok, err, undefined, Io, pure, fail, ◌>>=◌, ◌>>◌, Regmap}
use fboss_bsp_kmods.Kernel.Errno.{einval, eopnotsupp}

-- The registers of fan `fn`, counted from 1.
abbrev pub reg_fan_tach_f : ℕ → ℕ
reg_fan_tach_f fn = 0x30 + (fn - 1) * 0x10

abbrev pub reg_fan_tach_r : ℕ → ℕ
reg_fan_tach_r fn = 0x31 + (fn - 1) * 0x10

abbrev pub reg_fan_pwm : ℕ → ℕ
reg_fan_pwm fn = 0x32 + (fn - 1) * 0x10

abbrev pub reg_fan_led : ℕ → ℕ
reg_fan_led fn = 0x34 + (fn - 1) * 0x10

abbrev pub reg_fan_status : ℕ → ℕ
reg_fan_status fn = 0x38 + (fn - 1) * 0x10

abbrev pub fan_mode_mask : ℕ
fan_mode_mask = 0x80

abbrev pub wdt_ctrl_0 : ℕ
wdt_ctrl_0 = 0x1F

abbrev pub wdt_ctrl_1 : ℕ
wdt_ctrl_1 = 0x20

abbrev pub wdt_sta_reg : ℕ
wdt_sta_reg = 0x21

abbrev pub wdt_pwm_reg : ℕ
wdt_pwm_reg = 0x22

abbrev pub wdt_timeout_max : ℕ
wdt_timeout_max = 0xFF * 5

-- `struct fbfancpld_config`. A count and a limit are not negative once they are validated; a
-- multiplier of 2 ^ 31 or more turns negative in the `int` that holds it.
pub record FanConfig : Type 0 where
  pub num_fans : ℕ
  pub pwm_max : ℕ
  pub speed_multiplier : ℤ
  pub has_rear_tach : Bool
  pub has_leds : Bool

-- An `int` that is a value or a negative code. A call of SMBus is never undefined.
abbrev pub int_of : Ret ℕ → ℤ
int_of (ok v) = pos v
int_of (err e) = pos 0 -ℤ pos e
int_of undefined = pos 0

-- `(u8)` of an `int`, as the last argument of `i2c_smbus_write_byte_data` is one.
abbrev pub u8_of_int : ℤ → ℕ
u8_of_int (pos n) = u8 n
u8_of_int (negsuc n) = 255 - u8 n

abbrev pub print_int : ℤ → Text
print_int (pos n) = print_dec n
print_int (negsuc n) = codes "-" ++ print_dec (n + 1)

-- The kinds of sensors and attributes that hwmon asks for.
pub data Sensor : Type 0 where
  hwmon_fan hwmon_pwm other_sensor : Sensor

pub data Attr : Type 0 where
  fan_input pwm_input pwm_enable other_attr : Attr

unfoldable pub fbfancpld_is_visible : Sensor → Attr → ℕ
fbfancpld_is_visible hwmon_fan fan_input = 0o444
fbfancpld_is_visible hwmon_pwm pwm_input = 0o644
fbfancpld_is_visible hwmon_pwm pwm_enable = 0o644
fbfancpld_is_visible _ _ = 0

-- The register that a channel of tachometers reads.
unfoldable pub tach_reg : FanConfig → ℕ → ℕ
tach_reg c channel =
    if c.has_rear_tach
    then (let fn = channel / 2 + 1 in
        if channel % 2 == 0 then reg_fan_tach_f fn else reg_fan_tach_r fn)
    else reg_fan_tach_f (channel + 1)

module _ {S : Type 0} (client : Regmap S) where
  unfoldable pub fan_wdt_start : Io S (Unit {0})
  fan_wdt_start = client.write wdt_ctrl_0 0x10

  unfoldable pub fan_wdt_stop : Io S (Unit {0})
  fan_wdt_stop = client.write wdt_ctrl_0 0

  unfoldable pub fan_wdt_ping : Io S (Unit {0})
  fan_wdt_ping = client.write wdt_ctrl_0 (bit_or 0x10 0x20)

  -- `wdd->timeout` afterwards, and the write.
  unfoldable pub fan_wdt_set_timeout : ℕ → ℕ × Io S (Unit {0})
  fan_wdt_set_timeout timeout =
      let kept = min timeout wdt_timeout_max in (kept, client.write wdt_ctrl_1 (u8 (kept / 5)))

  -- Both reads are used unchecked.
  unfoldable pub fan_wdt_get_timeleft : S → ℕ × S
  fan_wdt_get_timeleft s =
      let (max_timeout, s') = client.read wdt_ctrl_1 s in
      let (counter, s'') = client.read wdt_sta_reg s' in
      (pos_part ((int_of max_timeout -ℤ int_of counter) *ℤ pos 5), s'')

  module _ (c : FanConfig) where
    -- The byte that a boost value is written as.
    unfoldable pub boost_byte : ℤ → ℕ
    boost_byte (pos val) = u8 (if ltb c.pwm_max val then c.pwm_max else val)
    boost_byte (negsuc n) = u8_of_int (negsuc n)

    unfoldable pub fan_input_read : ℕ → Io S ℤ
    fan_input_read channel = do
      reg_data ← client.read (tach_reg c channel)
      pure (pos reg_data *ℤ c.speed_multiplier)

    unfoldable pub pwm_input_read : ℕ → Io S ℤ
    pwm_input_read channel = do
      reg_data ← client.read (reg_fan_pwm (channel + 1))
      pure (pos (if ltb c.pwm_max reg_data then c.pwm_max else reg_data))

    unfoldable pub pwm_enable_read : ℕ → Io S ℤ
    pwm_enable_read channel = do
      reg_data ← client.read (reg_fan_pwm (channel + 1))
      pure (if test_bits reg_data fan_mode_mask then pos 0 else pos 1)

    unfoldable pub pwm_input_write : ℕ → ℤ → Io S (Unit {0})
    pwm_input_write channel (negsuc n) = fail einval
    pwm_input_write channel (pos val) = do
      let target_pwm = if ltb c.pwm_max val then c.pwm_max else val
      reg_data ← client.read (reg_fan_pwm (channel + 1))
      client.write (reg_fan_pwm (channel + 1))
          (u8 (bit_or (bit_and reg_data fan_mode_mask) target_pwm))

    unfoldable pub pwm_enable_write : ℕ → ℤ → Io S (Unit {0})
    pwm_enable_write channel (negsuc n) = fail einval
    pwm_enable_write channel (pos val) =
        if ltb 1 val
        then fail einval
        else (client.read (reg_fan_pwm (channel + 1)) >>= λ reg_data.
            client.write (reg_fan_pwm (channel + 1)) (u8 (bit_or (val * 2 ^ 7) reg_data)))

    unfoldable pub fan_read : Attr → ℕ → Io S ℤ
    fan_read fan_input channel = fan_input_read channel
    fan_read _ channel = fail eopnotsupp

    unfoldable pub pwm_read : Attr → ℕ → Io S ℤ
    pwm_read pwm_input channel = pwm_input_read channel
    pwm_read pwm_enable channel = pwm_enable_read channel
    pwm_read _ channel = fail eopnotsupp

    unfoldable pub pwm_write : Attr → ℕ → ℤ → Io S (Unit {0})
    pwm_write pwm_input channel val = pwm_input_write channel val
    pwm_write pwm_enable channel val = pwm_enable_write channel val
    pwm_write _ channel val = fail eopnotsupp

    unfoldable pub fbfancpld_read : Sensor → Attr → ℕ → Io S ℤ
    fbfancpld_read hwmon_fan attr channel = fan_read attr channel
    fbfancpld_read hwmon_pwm attr channel = pwm_read attr channel
    fbfancpld_read other_sensor attr channel = fail eopnotsupp

    unfoldable pub fbfancpld_write : Sensor → Attr → ℕ → ℤ → Io S (Unit {0})
    fbfancpld_write hwmon_pwm attr channel val = pwm_write attr channel val
    fbfancpld_write _ attr channel val = fail eopnotsupp

    -- The read is used unchecked: of a negative code `-e` the lowest bit is that of `e`.
    unfoldable pub fan_present_show : ℕ → S → Text × S
    fan_present_show fn s =
        let (reg_data, s') = client.read (reg_fan_status fn) s in
        let low_bit : ℕ = elim reg_data [ ok v ↦ v % 2 | err e ↦ e % 2 | undefined ↦ 0 ] in
        ((if low_bit == 0 then codes "1\n" else codes "0\n"), s')

    unfoldable pub fan_boost_pwm_show : S → Text × S
    fan_boost_pwm_show s =
        let (reg_data, s') = client.read wdt_pwm_reg s in
        let shown : ℤ = elim reg_data [
          | ok v ↦ pos (if ltb c.pwm_max v then c.pwm_max else v)
          | err e ↦ int_of (err e)
          | undefined ↦ pos 0
        ] in
        (print_int shown ++ codes "\n", s')

    -- `parsed` is what `kstrtoint` makes of the buffer, or its error code. A negative number passes.
    unfoldable pub fan_boost_pwm_store : Ret ℤ → ℕ → Io S ℕ
    fan_boost_pwm_store (err e) count s = (err e, s)
    fan_boost_pwm_store undefined count s = (undefined, s)
    fan_boost_pwm_store (ok val) count s =
        (client.write wdt_pwm_reg (boost_byte val) >> pure count) s

  -- `struct fan_led_data`: the register of a LED and the value that lights it. `true` is LED_ON.
  pub fan_led_brightness_get : ℕ → ℕ → Io S Bool
  fan_led_brightness_get reg_addr reg_val = do
    ret ← client.read reg_addr
    pure (u8 (bit_and ret 0x03) == reg_val)

  pub fan_led_brightness_set : ℕ → ℕ → ℕ → Io S (Unit {0})
  fan_led_brightness_set reg_addr reg_val value =
      client.write reg_addr (if value == 0 then 0x03 else reg_val)
