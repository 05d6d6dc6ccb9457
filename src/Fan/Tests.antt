-- ===== src/Fan/Tests.antt =====
-- Concrete runs of the methods of kmods/fbfancpld_i2c.c, and the theorems at them.
use fboss_bsp_kmods.Base.{◌^◌, ℕ, ◌+◌, ◌*◌, ◌/◌, ◌%◌, ◌<◌, ◌≡◌, ◌≢◌, arith, refl, true}
use fboss_bsp_kmods.Base.{pos, if◌then◌else◌, ◌==◌}
use fboss_bsp_kmods.Kernel.{ok, err, Regmap, update}
use fboss_bsp_kmods.Bits.Laws.{mod_lt_pow}
use fboss_bsp_kmods.Kernel.{IsRegisterFile}
use fboss_bsp_kmods.Kernel.Memory.{Memory, memory, content, memory-IsRegisterFile, all_hold}
use fboss_bsp_kmods.Fan.{FanConfig, tach_reg}
use fboss_bsp_kmods.Fan.{pwm_input_write, pwm_input_read, pwm_enable_write, pwm_enable_read}
use fboss_bsp_kmods.Fan.{fan_wdt_set_timeout, wdt_ctrl_1, wdt_sta_reg}
use fboss_bsp_kmods.Fan.Pwm.{pwm_input_write_register}
use fboss_bsp_kmods.Fan.Tach.{tach_reg_own}

abbrev six_fans : FanConfig
six_fans = record {
  num_fans = 6;
  pwm_max = 63;
  speed_multiplier = pos 150;
  has_rear_tach = true;
  has_leds = true;
}

-- Every register holds 10.
abbrev low : Memory
low = all_hold 10

-- The register of the second fan after a write of 90, which the limit cuts down to 63.
abbrev limited : Memory
limited = update low 0x42 63

write_ninety : pwm_input_write (memory 8) six_fans 1 (pos 90) low ≡ (ok tt, limited)
unfolding pwm_input_write
write_ninety = refl

read_limited : pwm_input_read (memory 8) six_fans 1 limited ≡ (ok (pos 63), limited)
unfolding pwm_input_read
read_limited = refl

-- The register after pwm_enable is set to 1: 10 with the mode bit.
abbrev enabled : Memory
enabled = update low 0x42 138

enable : pwm_enable_write (memory 8) six_fans 1 (pos 1) low ≡ (ok tt, enabled)
unfolding pwm_enable_write
enable = refl

read_enabled : pwm_enable_read (memory 8) six_fans 1 enabled ≡ (ok (pos 0), enabled)
unfolding pwm_enable_read
read_enabled = refl

pwm_input_write_register_example :
    (content 8 limited 0x42 % 128 ≡ 63)
    × (content 8 limited 0x42 / 128 ≡ content 8 low 0x42 / 128)
    × ((b : ℕ) → b ≢ 0x42 → content 8 limited b ≡ content 8 low b)
pwm_input_write_register_example =
    pwm_input_write_register (memory 8) (content 8) (memory-IsRegisterFile 8) six_fans 1 90 low
      limited (omega arith) write_ninety

tach_reg_own_example :
    (tach_reg six_fans 3 ≡ tach_reg six_fans 11 → ◌≡◌ {A = ℕ} 3 11)
    × (tach_reg six_fans 3 < 0x30 + 6 * 0x10)
    × (tach_reg six_fans 3 ≢ 0x42)
    × (tach_reg six_fans 3 ≢ 0x44)
    × (tach_reg six_fans 3 ≢ 0x48)
tach_reg_own_example =
    tach_reg_own six_fans 3 11 1 (omega arith) (omega arith) (omega arith) (omega arith)

-- A timeout of 33 seconds is six steps and a rest.
abbrev timed : Memory
timed = update low wdt_ctrl_1 6

set_33 : (fan_wdt_set_timeout (memory 8) 33).1 low ≡ (ok tt, timed)
unfolding fan_wdt_set_timeout
set_33 = refl

-- A device of which the counter cannot be read.
abbrev deaf : Regmap Memory
deaf = record {
  read = λ a s. if a == wdt_sta_reg then (err 121, s) else (ok (s a % 2 ^ 8), s);
  write = λ a v s. (ok tt, update s a v);
}

deaf-IsRegisterFile : IsRegisterFile deaf 8 (content 8)
deaf-IsRegisterFile = record {
  reg_lt = λ s a. mod_lt_pow (s a) 8;
  read_ok = λ s a v t h. ground arith;
  read_reg = λ s a b. ground arith;
  write_ok = λ s a v t b small h. (memory-IsRegisterFile 8).write_ok s a v t b small h;
  write_err = λ s a v t b e h. ground arith;
}

set_33_deaf : (fan_wdt_set_timeout deaf 33).1 low ≡ (ok tt, timed)
unfolding fan_wdt_set_timeout
set_33_deaf = refl
