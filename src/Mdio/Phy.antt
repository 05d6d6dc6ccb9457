-- ===== src/Mdio/Phy.antt =====
-- The controller as the driver relies on it: the course of a command, and the data that a read
-- brings from the register of a PHY.
use fboss_bsp_kmods.Base.{ℕ, zero, suc, ◌%◌, ◌≡◌, arith, refl, ap, ◌∙◌, Bool, true, false}
use fboss_bsp_kmods.Base.{none, if◌then◌else◌, Bool-cases, Option-cases, inl, inr}
use fboss_bsp_kmods.Kernel.{ok}
use fboss_bsp_kmods.Field.{field_of}
use fboss_bsp_kmods.Mmio.{Mmio}
use fboss_bsp_kmods.Mdio.{
  MdioBus, state_ready, state_busy, is_ready, reg_cmd, reg_rd_dat, reg_sts, sts_done, sts_err,
}
use fboss_bsp_kmods.Mdio.{bus_read, command, csr_read, put_field, start}
use fboss_bsp_kmods.Mdio.{fbiob_mdio_clean_status, poll_ready, wait_bus_ready, finish_read}
use fboss_bsp_kmods.Mdio.{fbiob_mdio_read_c45}
use fboss_bsp_kmods.Mdio.Command.{fields_of, command_fields, read_ready}

-- Where the controller is with a command word. In `ended` and `holding` the data of the command
-- stands, in `cleared` and `holding` no status is left.
pub data Phase : Type 0 where
  idle cleared : Phase
  running ended holding : ℕ → Phase

-- What a poll of the status `u` tells of a running command.
abbrev pub polled_phase : (w u : ℕ) → Phase
polled_phase w u = if sts_err u then idle else if sts_done u then ended w else running w

-- Clearing the status does not end a command.
abbrev pub clean_phase : Phase → Phase
clean_phase idle = cleared
clean_phase cleared = cleared
clean_phase (running w) = running w
clean_phase (ended w) = holding w
clean_phase (holding w) = holding w

abbrev pub is_running : Phase → Bool
is_running (running w) = true
is_running idle = false
is_running cleared = false
is_running (ended w) = false
is_running (holding w) = false

-- A command can be started.
abbrev pub is_clear : Phase → Bool
is_clear cleared = true
is_clear (holding w) = true
is_clear idle = false
is_clear (running w) = false
is_clear (ended w) = false

-- The controller over PHYs whose registers read as `phy` says. A command that is started with a
-- clear status runs until a poll of the status shows an error or the end; only once the end is
-- shown without an error, and its status is cleared, the data register holds what the PHY
-- answers to the addresses of the command, if that is a read.
pub record IsPhy {S : Type 0} (io : Mmio S) (phase : S → Phase) (phy : (phyad devad reg : ℕ) → ℕ)
    : Type 0 where
  pub read_status :
      (s : S) (w : ℕ)
      → phase s ≡ running w
      → phase (io.readl reg_sts s).1 ≡ polled_phase w (io.readl reg_sts s).0
  pub read_status_kept :
      (s : S) → is_running (phase s) ≡ false → phase (io.readl reg_sts s).1 ≡ phase s
  pub write_status :
      (s : S) (v : ℕ) → v % 4 ≡ 3 → phase (io.writel reg_sts v s) ≡ clean_phase (phase s)
  pub read_command : (s : S) → phase (io.readl reg_cmd s).1 ≡ phase s
  pub write_command :
      (s : S) (v : ℕ) → is_clear (phase s) ≡ true → phase (io.writel reg_cmd v s) ≡ running v
  pub read_data :
      (s : S) (w : ℕ)
      → phase s ≡ holding w
      → (fields_of w).op ≡ 1
      → field_of 0 16 (io.readl reg_rd_dat s).0
        ≡ phy (fields_of w).phyad (fields_of w).devad (fields_of w).reg

clean_phase-is_clear : (p : Phase) → is_running p ≡ false → is_clear (clean_phase p) ≡ true
clean_phase-is_clear idle h = refl
clean_phase-is_clear cleared h = refl
clean_phase-is_clear (running w) h = cc
clean_phase-is_clear (ended w) h = refl
clean_phase-is_clear (holding w) h = refl

both_bits : (u : ℕ) → put_field 1 1 1 (put_field 0 1 1 u) % 4 ≡ 3
both_bits u = omega arith

module _ {S : Type 0} {io : Mmio S} {phase : S → Phase} {phy : (phyad devad reg : ℕ) → ℕ}
    (is_phy : IsPhy io phase phy) where
  clean_lem :
      (bus : MdioBus S)
      → is_running (phase bus.hw) ≡ false
      → phase (fbiob_mdio_clean_status io bus).hw ≡ clean_phase (phase bus.hw)
  unfolding fbiob_mdio_clean_status
  clean_lem bus h =
      let (sts, s) = io.readl reg_sts bus.hw in
      is_phy.write_status s (put_field 1 1 1 (put_field 0 1 1 sts)) (both_bits sts)
      ∙ ap clean_phase (is_phy.read_status_kept bus.hw h)

  -- A wait for a running command that succeeds ends with the command ended.
  poll_ended :
      (fuel w : ℕ) (bus : MdioBus S)
      → is_ready bus.state ≡ false
      → phase bus.hw ≡ running w
      → (poll_ready io fuel bus).0 ≡ none
      → phase (poll_ready io fuel bus).1.hw ≡ ended w
  unfolding poll_ready
  poll_ended zero w bus busy run passed = absurd (ground arith)
  poll_ended (suc fuel) w bus busy run passed =
      let (u, bus') = csr_read io reg_sts bus in
      let next : phase bus'.hw ≡ polled_phase w u = is_phy.read_status bus.hw w run in
      elim (Bool-cases (sts_err u)) [
        | inl failed ↦ absurd (ground (arith, busy, failed, passed))
        | inr sound ↦ elim (Bool-cases (sts_done u)) [
          | inl done ↦ ground (arith, busy, sound, done, next)
          | inr waits ↦ ground (
            arith,
            busy,
            sound,
            waits,
            poll_ended fuel w bus' busy (ground (arith, sound, waits, next))
                (ground (arith, busy, sound, waits, passed)),
          )
        ]
      ]

  -- The end of a read command that succeeds returns what the PHY answers.
  finish_read_answer :
      (w v : ℕ) (bus : MdioBus S)
      → is_ready bus.state ≡ false
      → phase bus.hw ≡ running w
      → (fields_of w).op ≡ 1
      → (finish_read io bus).0 ≡ ok v
      → v ≡ phy (fields_of w).phyad (fields_of w).devad (fields_of w).reg
  unfolding finish_read wait_bus_ready
  finish_read_answer w v bus busy run op_read h =
      let (ret, bus') = poll_ready io 51 bus in
      elim (Option-cases ret) [
        | inl passed ↦
            let over : phase bus'.hw ≡ ended w = poll_ended 51 w bus busy run passed in
            let held : phase (fbiob_mdio_clean_status io bus').hw ≡ holding w =
              clean_lem bus' (ap is_running over) ∙ ap clean_phase over in
            let answer = is_phy.read_data (fbiob_mdio_clean_status io bus').hw w held op_read in
            ground (arith, passed, answer, h)
        | inr (e, failed) ↦ absurd (ground (arith, failed, h))
      ]

  -- A read that starts in the state READY, with no command running, and succeeds returns what the
  -- PHY answers at the addresses cut down to their fields.
  pub fbiob_mdio_read_c45_answer :
      (addr devad regnum v : ℕ) (bus : MdioBus S)
      → bus.state ≡ state_ready
      → is_running (phase bus.hw) ≡ false
      → (fbiob_mdio_read_c45 io addr devad regnum bus).0 ≡ ok v
      → v ≡ phy (addr % 32) (devad % 32) (regnum % 65536)
  fbiob_mdio_read_c45_answer addr devad regnum v bus ready quiet h =
      let clean = fbiob_mdio_clean_status io bus in
      let (u, s) = io.readl reg_cmd clean.hw in
      let w = command addr devad regnum bus_read u in
      let sent = start io addr devad regnum bus_read (record clean { state = state_busy }) in
      let clear : is_clear (phase s) ≡ true =
        ap is_clear (is_phy.read_command clean.hw ∙ clean_lem bus quiet)
        ∙ clean_phase-is_clear (phase bus.hw) quiet in
      let run : phase sent.hw ≡ running w = is_phy.write_command s w clear in
      let fields = command_fields addr devad regnum bus_read u in
      let answer =
        finish_read_answer w v sent refl run (ap (λ f. f.op) fields)
          (rw (read_ready io addr devad regnum bus ready) at h) in
      answer ∙ ap (λ f. phy f.phyad f.devad f.reg) fields
