-- ===== src/Fan/Pwm.antt =====
-- What writes to the PWM attributes of a fan do to its register, and what the reads then return.
use fboss_bsp_kmods.Base.{ℕ, zero, suc, ◌+◌, ◌*◌, ◌/◌, ◌%◌, ◌≤◌, ◌<◌, ◌≡◌, ◌≢◌, arith, min, ltb}
use fboss_bsp_kmods.Base.{if◌then◌else◌, ◌==◌, ℤ, pos, bit_and, bit_or}
use fboss_bsp_kmods.Bits.{u8, test_bits}
use fboss_bsp_kmods.Bits.Step.{zero-bit_or}
use fboss_bsp_kmods.Bits.Bytes.{bit_and_top, bit_or_top, bit_or_add}
use fboss_bsp_kmods.Kernel.{ok, pure, Regmap, IsRegisterFile, read_ok_inv, change_ok}
use fboss_bsp_kmods.Fan.{FanConfig, reg_fan_pwm, fan_mode_mask, pwm_input_read, pwm_enable_read}
use fboss_bsp_kmods.Fan.{pwm_input_write, pwm_enable_write}

module _ {S : Type 0} (client : Regmap S) (reg : S → ℕ → ℕ) (file : IsRegisterFile client 8 reg)
    (c : FanConfig) (channel : ℕ) where
  abbrev pwm : S → ℕ
  pwm s = reg s (reg_fan_pwm (channel + 1))

  input_byte :
      (target old : ℕ)
      → target < 128
      → old < 256
      → u8 (bit_or (bit_and old fan_mode_mask) target) ≡ old / 128 * 128 + target
  input_byte target old h p = ground (arith, bit_and_top old p, bit_or_add 7 (old / 128) target)

  -- On registers that keep what is written, and for a PWM limit below 128, a PWM write that
  -- succeeds sets the lower seven bits of the fan's register to the value cut down to the limit,
  -- and keeps the mode bit and all other registers.
  pub pwm_input_write_register :
      (val : ℕ) (s t : S)
      → c.pwm_max < 128
      → pwm_input_write client c channel (pos val) s ≡ (ok tt, t)
      → (pwm t % 128 ≡ min val c.pwm_max)
        × (pwm t / 128 ≡ pwm s / 128)
        × ((b : ℕ) → b ≢ reg_fan_pwm (channel + 1) → reg t b ≡ reg s b)
  unfolding pwm_input_write
  pwm_input_write_register val s t h e =
      let target = if ltb c.pwm_max val then c.pwm_max else val in
      let f = λ (old : ℕ). u8 (bit_or (bit_and old fan_mode_mask) target) in
      let low : target < 128 = ground arith in
      let small = file.reg_lt s (reg_fan_pwm (channel + 1)) in
      let byte = input_byte target (pwm s) low small in
      let effect = change_ok file (reg_fan_pwm (channel + 1)) f s t (omega arith) e in
      (
        ground (arith, effect (reg_fan_pwm (channel + 1)), byte),
        ground (arith, effect (reg_fan_pwm (channel + 1)), byte),
        λ b ne. ground (arith, effect b),
      )

  -- On registers that keep what is written, for a PWM limit below 128 and with the mode bit
  -- clear, the PWM value read after a write that succeeded is the value written, cut down to the
  -- limit.
  pub pwm_input_read-write :
      (val : ℕ) (s t u : S) (shown : ℤ)
      → c.pwm_max < 128
      → pwm s < 128
      → pwm_input_write client c channel (pos val) s ≡ (ok tt, t)
      → pwm_input_read client c channel t ≡ (ok shown, u)
      → shown ≡ pos (min val c.pwm_max)
  unfolding pwm_input_read
  pwm_input_read-write val s t u shown h manual put got =
      let (low, high, others) = pwm_input_write_register val s t h put in
      let (u', done, kept) = read_ok_inv file (reg_fan_pwm (channel + 1)) _ t got in
      let now : pwm t ≡ min val c.pwm_max = omega arith in ground (arith, now)

  -- On registers that keep what is written, a write to pwm_enable that succeeds was of 0 or 1; of
  -- 1 it sets the mode bit and keeps the lower bits, of 0 it leaves the register as it was, and
  -- it changes no other register.
  pub pwm_enable_write_register :
      (val : ℕ) (s t : S)
      → pwm_enable_write client c channel (pos val) s ≡ (ok tt, t)
      → (val ≤ 1)
        × (pwm t ≡ (if val == 0 then pwm s else 128 + pwm s % 128))
        × ((b : ℕ) → b ≢ reg_fan_pwm (channel + 1) → reg t b ≡ reg s b)
  unfolding pwm_enable_write
  pwm_enable_write_register zero s t e =
      let small = file.reg_lt s (reg_fan_pwm (channel + 1)) in
      let byte : u8 (bit_or 0 (pwm s)) ≡ pwm s = ground (arith, zero-bit_or (pwm s)) in
      let effect =
        change_ok file (reg_fan_pwm (channel + 1)) (λ old. u8 (bit_or 0 old)) s t (omega arith) e in
      (
        omega arith,
        ground (arith, effect (reg_fan_pwm (channel + 1)), byte),
        λ b ne. ground (arith, effect b),
      )
  pwm_enable_write_register (suc zero) s t e =
      let small = file.reg_lt s (reg_fan_pwm (channel + 1)) in
      let byte : u8 (bit_or 128 (pwm s)) ≡ 128 + pwm s % 128 =
        ground (arith, bit_or_top (pwm s) small) in
      let effect =
        change_ok file (reg_fan_pwm (channel + 1)) (λ old. u8 (bit_or 128 old)) s t (omega arith)
          e in
      (
        omega arith,
        ground (arith, effect (reg_fan_pwm (channel + 1)), byte),
        λ b ne. ground (arith, effect b),
      )
  pwm_enable_write_register (suc (suc n)) s t e = ground arith

  -- On registers that keep what is written, after 1 is written to pwm_enable with success,
  -- reading it returns 0.
  pub pwm_enable_read-write :
      (s t u : S) (shown : ℤ)
      → pwm_enable_write client c channel (pos 1) s ≡ (ok tt, t)
      → pwm_enable_read client c channel t ≡ (ok shown, u)
      → shown ≡ pos 0
  unfolding pwm_enable_read
  pwm_enable_read-write s t u shown put got =
      let (legal, now, others) = pwm_enable_write_register 1 s t put in
      let (u', done, kept) =
        read_ok_inv file (reg_fan_pwm (channel + 1))
          (λ v. pure (if test_bits v fan_mode_mask then pos 0 else pos 1)) t got in
      ground (arith, now, done, bit_and_top (pwm t) (file.reg_lt t (reg_fan_pwm (channel + 1))))
