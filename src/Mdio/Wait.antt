-- ===== src/Mdio/Wait.antt =====
-- The bounded wait for the MDIO controller, and the state in which each operation leaves it.
use fboss_bsp_kmods.Base.{ℕ, zero, suc, ◌≤◌, ◌<◌, ◌≡◌, ◌≢◌, arith, refl, true, false}
use fboss_bsp_kmods.Base.{none, some}
use fboss_bsp_kmods.Kernel.Errno.{ebusy, eio}
use fboss_bsp_kmods.Base.{◌||◌, if◌then◌else◌}
use fboss_bsp_kmods.Mmio.{Mmio}
use fboss_bsp_kmods.Mdio.{
  MdioBus, MdioState, state_init, state_ready, state_busy, is_ready, sts_done, sts_err, csr_read,
  reg_sts,
}
use fboss_bsp_kmods.Mdio.{poll_ready, wait_bus_ready}

not_ready : (s : MdioState) → s ≢ state_ready → is_ready s ≡ false
not_ready state_init ne = refl
not_ready state_ready ne = absurd (ne refl)
not_ready state_busy ne = refl

module _ {S : Type 0} (io : Mmio S) where
  -- The bus after `n` polls of the status, and the status that the next poll reads.
  abbrev pub polled : ℕ → MdioBus S → MdioBus S
  polled zero bus = bus
  polled (suc n) bus = polled n (csr_read io reg_sts bus).1

  abbrev pub status : MdioBus S → ℕ
  status bus = (csr_read io reg_sts bus).0

  -- No one of the first `n` polls ends the wait.
  abbrev pub Waits : ℕ → MdioBus S → Type 0
  Waits n bus =
      (j : ℕ)
      → j < n
      → (sts_err (status (polled j bus)) ≡ false) × (sts_done (status (polled j bus)) ≡ false)

  Waits-tail : (n : ℕ) (bus : MdioBus S) → Waits (suc n) bus → Waits n (csr_read io reg_sts bus).1
  Waits-tail n bus quiet = λ j h. quiet (suc j) (omega arith)

  poll_ready_ends :
      (fuel k : ℕ) (bus : MdioBus S)
      → k < fuel
      → is_ready bus.state ≡ false
      → Waits k bus
      → let u = status (polled k bus) in
        (sts_err u || sts_done u) ≡ true
        → poll_ready io fuel bus ≡ ((if sts_err u then some eio else none), polled (suc k) bus)
  unfolding poll_ready
  poll_ready_ends zero k bus h idle quiet over = absurd (omega arith)
  poll_ready_ends (suc fuel) zero bus h idle quiet over = ground (arith, idle, over)
  poll_ready_ends (suc fuel) (suc k) bus h idle quiet over =
      let first = quiet 0 (omega arith) in
      let rest =
        poll_ready_ends fuel k (csr_read io reg_sts bus).1 (omega arith) idle
          (Waits-tail k bus quiet) over in
      ground (arith, idle, first, rest)

  poll_ready_times_out :
      (fuel : ℕ) (bus : MdioBus S)
      → is_ready bus.state ≡ false
      → Waits fuel bus
      → poll_ready io fuel bus ≡ (some ebusy, polled fuel bus)
  unfolding poll_ready
  poll_ready_times_out zero bus idle quiet = refl
  poll_ready_times_out (suc fuel) bus idle quiet =
      let first = quiet 0 (omega arith) in
      let rest =
        poll_ready_times_out fuel (csr_read io reg_sts bus).1 idle (Waits-tail fuel bus quiet) in
      ground (arith, idle, first, rest)

  -- Outside the state READY, waiting ends at the first poll that shows an error or the end of the
  -- command, if that is one of the first 51, with EIO for an error, also if the end is shown with
  -- it, and with success otherwise.
  pub wait_bus_ready_ends :
      (k : ℕ) (bus : MdioBus S)
      → k ≤ 50
      → bus.state ≢ state_ready
      → Waits k bus
      → (sts_err (status (polled k bus)) || sts_done (status (polled k bus))) ≡ true
      → wait_bus_ready io bus
        ≡ ((if sts_err (status (polled k bus)) then some eio else none), polled (suc k) bus)
  unfolding wait_bus_ready
  wait_bus_ready_ends k bus h ne quiet over =
      poll_ready_ends 51 k bus (omega arith) (not_ready bus.state ne) quiet over

  -- If none of 51 polls shows an error or the end, waiting gives up with EBUSY.
  pub wait_bus_ready_times_out :
      (bus : MdioBus S)
      → bus.state ≢ state_ready
      → Waits 51 bus
      → wait_bus_ready io bus ≡ (some ebusy, polled 51 bus)
  unfolding wait_bus_ready
  wait_bus_ready_times_out bus ne quiet = poll_ready_times_out 51 bus (not_ready bus.state ne) quiet
