-- ===== src/Fan/Tach.antt =====
-- Which register a tachometer channel of a fan CPLD reads (kmods/fbfancpld_i2c.c).
use fboss_bsp_kmods.Base.{ℕ, ◌+◌, ◌*◌, ◌≤◌, ◌<◌, ◌≡◌, ◌≢◌, arith}
use fboss_bsp_kmods.Base.{if◌then◌else◌}
use fboss_bsp_kmods.Fan.{FanConfig, tach_reg, reg_fan_pwm, reg_fan_led, reg_fan_status}

-- The number of channels that a configuration makes.
abbrev pub num_tach : FanConfig → ℕ
num_tach c = if c.has_rear_tach then c.num_fans * 2 else c.num_fans

-- With up to 8 fans, every tachometer channel has its own register, which lies below the end of
-- the blocks of the fans, and no channel reads a register of a PWM, a LED or a status.
pub tach_reg_own :
    (c : FanConfig) (i j k : ℕ)
    → c.num_fans ≤ 8
    → i < num_tach c
    → j < num_tach c
    → k < 8
    → (tach_reg c i ≡ tach_reg c j → i ≡ j)
      × (tach_reg c i < 0x30 + c.num_fans * 0x10)
      × (tach_reg c i ≢ reg_fan_pwm (k + 1))
      × (tach_reg c i ≢ reg_fan_led (k + 1))
      × (tach_reg c i ≢ reg_fan_status (k + 1))
unfolding tach_reg
tach_reg_own c i j k h hi hj hk =
    (λ e. ground arith, ground arith, λ e. ground arith, λ e. ground arith, λ e. ground arith)
