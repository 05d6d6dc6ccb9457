-- ===== src/I2c/Control.antt =====
-- The checks before a transfer, the bounded wait for the bus, and the clock divisor.
use fboss_bsp_kmods.Base.{ℕ, zero, suc, ◌-◌, ◌*◌, ◌^◌, ◌≤◌, ◌<◌, ◌≡◌, ◌≢◌, ◌↔◌, arith, refl, ap}
use fboss_bsp_kmods.Base.{
  List, [], ◌∷◌, All, none, true, false, Bool-cases, inl, inr, ◌&&◌, if◌then◌else◌, ltb, ◌==◌,
}
use fboss_bsp_kmods.Base.{bit_and, bit_or}
use fboss_bsp_kmods.Bits.{bit, not_u32, test_bits}
use fboss_bsp_kmods.Bits.Laws.{single_bit}
use fboss_bsp_kmods.Field.{Fits, merge}
use fboss_bsp_kmods.Field.Laws.{bit-merge}
use fboss_bsp_kmods.Mmio.{Mmio}
use fboss_bsp_kmods.Mmio.Window.{IsWindow, IsReadable}
use fboss_bsp_kmods.I2c.{Msg, Bus, same_addr, check_msg_params, timing_of, fbiob_i2c_set_timing}
use fboss_bsp_kmods.I2c.{
  bus_busy_sts, reg_timing_cfg, fbiob_i2c_check_busy, poll_free, wait_bus_for_free,
}

abbrev pub Agrees : ℕ → Msg → Type 0
Agrees addr m = (m.addr ≡ addr) × (m.buf ≢ none)

same_addr_iff : (addr : ℕ) (msgs : List Msg) → (same_addr addr msgs ≡ true) ↔ All (Agrees addr) msgs
unfolding same_addr
same_addr_iff addr [] = (λ h. tt, λ h. refl)
same_addr_iff addr (m ∷ msgs) =
    let rest = same_addr_iff addr msgs in
    (
      λ h. ((ground arith, ground arith), rest.0 (ground arith)),
      λ h. ground (arith, rest.1 h.1, h.0.0, h.0.1),
    )

-- The messages of a transfer are accepted exactly when the first has an address of seven bits,
-- all have that address and all have a buffer.
pub check_msg_params_iff :
    (m : Msg) (msgs : List Msg)
    → (check_msg_params (m ∷ msgs) ≡ none) ↔ ((m.addr ≤ 0x7f) × All (Agrees m.addr) (m ∷ msgs))
unfolding check_msg_params
check_msg_params_iff m msgs =
    let same = same_addr_iff m.addr (m ∷ msgs) in
    (λ h. (ground arith, same.0 (ground arith)), λ h. ground (arith, same.1 h.1, h.0))

lowest_byte : Fits 32 0 8
lowest_byte = omega arith

-- The bits of a register of which the lowest byte is replaced.
replaced_bits :
    (val div k : ℕ)
    → val < 2 ^ 32
    → div < 256
    → bit (merge val ((2 ^ 8 - 1) * 2 ^ 0) (div * 2 ^ 0)) k
      ≡ (if ltb k 8 then bit div k else bit val k)
replaced_bits val div k h p =
    let e : k - 0 ≡ k = omega arith in
    ground (arith, bit-merge lowest_byte val div k h p, ap (λ (i : ℕ). bit div i) e)

test_none : (x mask : ℕ) → test_bits x mask ≡ false → bit_and x mask ≡ 0
test_none x mask h = ground arith

-- The mask of the busy bit leaves bit 16 where it is.
busy_bit : (x : ℕ) → bit_and x bus_busy_sts ≡ bit x 16 * 65536
busy_bit x = single_bit 16 x

module _ {S : Type 0} (io : Mmio S) where
  -- The hardware after `n` reads of the command and status register.
  abbrev pub polled : ℕ → S → S
  polled zero s = s
  polled (suc n) s = polled n (io.readl 0x14 s).1

  -- Whether read `k` of the register finds its bit 16 clear.
  abbrev pub IsFreeAt : ℕ → S → Type 0
  IsFreeAt k s = bit (io.readl 0x14 (polled k s)).0 16 ≡ 0

  poll_free_success :
      (fuel k : ℕ) (bus : Bus S) → k < fuel → IsFreeAt k bus.hw → (poll_free io fuel bus).0 ≡ none
  unfolding poll_free fbiob_i2c_check_busy
  poll_free_success zero k bus h free = absurd (omega arith)
  poll_free_success (suc fuel) zero bus h free =
      ground (arith, busy_bit (io.readl 0x14 bus.hw).0, free)
  poll_free_success (suc fuel) (suc k) bus h free =
      let next : Bus S = record bus { hw = (io.readl 0x14 bus.hw).1 } in
      ground (arith, poll_free_success fuel k next (omega arith) free)

  poll_free_found :
      (fuel : ℕ) (bus : Bus S)
      → (poll_free io fuel bus).0 ≡ none
      → (k : ℕ) × (k < fuel) × IsFreeAt k bus.hw
  unfolding poll_free fbiob_i2c_check_busy
  poll_free_found zero bus h = absurd (ground arith)
  poll_free_found (suc fuel) bus h =
      let val = (io.readl 0x14 bus.hw).0 in
      let next : Bus S = record bus { hw = (io.readl 0x14 bus.hw).1 } in
      elim (Bool-cases (test_bits val bus_busy_sts)) [
        | inl busy ↦
            let (k, below, free) = poll_free_found fuel next (ground (arith, busy, h)) in
            (suc k, omega arith, free)
        | inr idle ↦ (0, omega arith, omega (arith, busy_bit val, test_none val bus_busy_sts idle))
      ]

  -- Waiting for the bus succeeds exactly if one of 351 reads in a row of the register at 0x14
  -- finds bit 16 clear, on any hardware.
  pub wait_bus_for_free_iff :
      (bus : Bus S)
      → ((wait_bus_for_free io bus).0 ≡ none)
        ↔ ((k : ℕ) × (k ≤ 350) × (bit (io.readl 0x14 (polled k bus.hw)).0 16 ≡ 0))
  unfolding wait_bus_for_free
  wait_bus_for_free_iff bus = (
    λ h. let (k, below, free) = poll_free_found 351 bus h in (k, omega arith, free),
    λ h. poll_free_success 351 h.0 bus (omega (arith, h.1)) h.2,
  )

  -- On registers that read as they were written and that reads leave alone, with less than 2 ^ 32
  -- in the timing register, setting the timing keeps 400 kHz if that was asked for and falls back
  -- to 100 kHz otherwise, puts 0x18 for 400 kHz and 0x63 for 100 into the lowest eight bits of
  -- the timing register, and changes no other bit of it and no other register.
  pub fbiob_i2c_set_timing_bits :
      (high : ℕ) (held : S → ℕ → ℕ) (bus : Bus S)
      → IsWindow io 0 high (λ s. Unit {0}) held
      → IsReadable io held
      → reg_timing_cfg < high
      → held bus.hw reg_timing_cfg < 2 ^ 32
      → let bus' = fbiob_i2c_set_timing io bus in
        (bus'.bus_freq_hz ≡ (if bus.bus_freq_hz == 400000 then 400000 else 100000))
        × ((b k : ℕ)
            → bit (held bus'.hw b) k ≡ (
                if b == reg_timing_cfg && ltb k 8
                then bit (if bus.bus_freq_hz == 400000 then 0x18 else 0x63) k
                else bit (held bus.hw b) k))
  unfolding fbiob_i2c_set_timing timing_of merge
  fbiob_i2c_set_timing_bits high held bus window readable inside small = (
    ground arith,
    λ b k.
        let (val, s) = io.readl reg_timing_cfg bus.hw in
        let same : val ≡ held bus.hw reg_timing_cfg = readable.read_held bus.hw reg_timing_cfg in
        let fits : val < 2 ^ 32 = omega arith in
        let value = bit_or (bit_and val (not_u32 0xFF)) (timing_of bus.bus_freq_hz).0 in
        let written = window.write_held s reg_timing_cfg value b (omega arith) inside tt in
        ground (
          arith,
          same,
          ap (λ (r : ℕ). bit r k) written,
          readable.read_kept bus.hw reg_timing_cfg b,
          replaced_bits val 0x18 k fits (omega arith),
          replaced_bits val 0x63 k fits (omega arith),
        ),
  )
