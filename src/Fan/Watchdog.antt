-- ===== src/Fan/Watchdog.antt =====
-- The timeout of the watchdog of a fan CPLD, and the time left that is computed from its registers.
use fboss_bsp_kmods.Base.{ℕ, ◌+◌, ◌-◌, ◌*◌, ◌/◌, ◌%◌, ◌≤◌, ◌<◌, ◌≡◌, ◌≢◌, arith, min}
use fboss_bsp_kmods.Kernel.{ok, err, Regmap, IsRegisterFile, read_keeps}
use fboss_bsp_kmods.Fan.{wdt_ctrl_1, wdt_sta_reg, wdt_timeout_max, fan_wdt_set_timeout}
use fboss_bsp_kmods.Fan.{fan_wdt_get_timeleft}

module _ {S : Type 0} (client : Regmap S) where
  module _ (reg : S → ℕ → ℕ) (file : IsRegisterFile client 8 reg) where
    -- On registers that keep what is written, a watchdog timeout is kept cut down to 1275
    -- seconds, and a write that succeeds leaves it in the register in steps of 5 seconds and
    -- changes no other register.
    pub fan_wdt_set_timeout_register :
        (timeout : ℕ) (s t : S)
        → (fan_wdt_set_timeout client timeout).1 s ≡ (ok tt, t)
        → ((fan_wdt_set_timeout client timeout).0 ≡ min timeout 1275)
          × (reg t wdt_ctrl_1 ≡ min timeout 1275 / 5)
          × ((b : ℕ) → b ≢ wdt_ctrl_1 → reg t b ≡ reg s b)
    unfolding fan_wdt_set_timeout
    fan_wdt_set_timeout_register timeout s t h =
        let kept = min timeout wdt_timeout_max in
        let byte : kept / 5 % 256 ≡ kept / 5 = omega arith in
        let effect = λ (b : ℕ). file.write_ok s wdt_ctrl_1 (kept / 5 % 256) t b (omega arith) h in
        (omega arith, ground (arith, effect wdt_ctrl_1, byte), λ b ne. ground (arith, effect b))

    -- On registers that keep what is written, after a timeout was set and if both reads succeed,
    -- the time left is the timeout in whole steps less the steps that the counter holds, and
    -- never more than the timeout.
    pub fan_wdt_get_timeleft-set_timeout :
        (timeout a n : ℕ) (s t u v : S)
        → (fan_wdt_set_timeout client timeout).1 s ≡ (ok tt, t)
        → client.read wdt_ctrl_1 t ≡ (ok a, u)
        → client.read wdt_sta_reg u ≡ (ok n, v)
        → let left = (fan_wdt_get_timeleft client t).0 in
          (left ≡ (min timeout 1275 / 5 - reg t wdt_sta_reg) * 5) × (left ≤ timeout)
    unfolding fan_wdt_get_timeleft
    fan_wdt_get_timeleft-set_timeout timeout a n s t u v h p q =
        let (kept, held, others) = fan_wdt_set_timeout_register timeout s t h in
        let first = file.read_ok t wdt_ctrl_1 a u p in
        let second = file.read_ok u wdt_sta_reg n v q in
        let same = read_keeps file t u wdt_ctrl_1 wdt_sta_reg p in
        (ground (arith, held, first, second, same), ground (arith, held, first, second, same))

    -- On registers that keep what is written, if the counter of the watchdog cannot be read after
    -- a timeout was set, the code of the error is added to the timeout in steps, and the time
    -- left that is reported is longer than the timeout that was kept.
    pub fan_wdt_get_timeleft_unread :
        (timeout a e : ℕ) (s t u v : S)
        → (fan_wdt_set_timeout client timeout).1 s ≡ (ok tt, t)
        → client.read wdt_ctrl_1 t ≡ (ok a, u)
        → client.read wdt_sta_reg u ≡ (err e, v)
        → 0 < e
        → let left = (fan_wdt_get_timeleft client t).0 in
          (left ≡ (min timeout 1275 / 5 + e) * 5) × ((fan_wdt_set_timeout client timeout).0 < left)
    unfolding fan_wdt_get_timeleft
    fan_wdt_get_timeleft_unread timeout a e s t u v h p q some_code =
        let (kept, held, others) = fan_wdt_set_timeout_register timeout s t h in
        let first = file.read_ok t wdt_ctrl_1 a u p in
        (ground (arith, held, first), ground (arith, held, first, kept))
