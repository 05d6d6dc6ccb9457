-- ===== src/Mdio/Tests.antt =====
-- Concrete runs of the controller of kmods/fboss_iob_mdio_aux.c, and the theorems at them.
use fboss_bsp_kmods.Base.{
  ℕ, zero, suc, ◌+◌, ◌%◌, true, false, ap, ◌∙◌, ◌-◌, ◌==◌, if◌then◌else◌, ◌≢◌, ◌≡◌, arith, refl,
  some, none,
}
use fboss_bsp_kmods.Kernel.{ok, err, update}
use fboss_bsp_kmods.Kernel.Errno.{eio}
use fboss_bsp_kmods.Field.{field_of}
use fboss_bsp_kmods.Mmio.Registers.{Words, word_at}
use fboss_bsp_kmods.Mmio.{Mmio}
use fboss_bsp_kmods.Mmio.Kept.{IsKept}
use fboss_bsp_kmods.Mdio.{sts_err, MdioBus, state_ready, state_busy, reg_cmd, reg_wr_dat, reg_sts}
use fboss_bsp_kmods.Mdio.{fbiob_mdio_read_c45, fbiob_mdio_write_c45, wait_bus_ready}
use fboss_bsp_kmods.Mdio.{finish_read, fbiob_mdio_clean_status, poll_ready, command}
use fboss_bsp_kmods.Mdio.Wait.{status, Waits, wait_bus_ready_ends}
use fboss_bsp_kmods.Mdio.Command.{CommandFields, fields_of}
use fboss_bsp_kmods.Mdio.Phy.{
  Phase, idle, cleared, running, ended, holding, polled_phase, clean_phase, is_running, is_clear,
  IsPhy,
}
use fboss_bsp_kmods.Mdio.Deferred.{fbiob_mdio_read_c45-write_c45}
use fboss_bsp_kmods.Mdio.Cdev.{MiiBus, MdioXfer, c45_read, c45_write, fb_mdio_cdev_ioctl}
use fboss_bsp_kmods.Mdio.Ioctl.{IsThrough, fb_mdio_cdev_ioctl_write, fb_mdio_cdev_ioctl_read}

-- A controller that ends each command at once with a given status, which a write clears.
abbrev device : ℕ → Mmio Words
device outcome = record {
  readl = λ a s. (s a, s);
  writel = λ a v s.
      if a == reg_sts
      then update s reg_sts 0
      else if a == reg_cmd
      then update (update s reg_cmd v) reg_sts outcome
      else update s a v;
}

device-IsKept : (outcome a : ℕ) → reg_sts ≢ a → IsKept (device outcome) a (λ s. word_at s a)
device-IsKept outcome a ne = record {
  read_own = λ s. refl;
  read_kept = λ s b. refl;
  write_own = λ s v. ground arith;
  write_other = λ s b v other. ground arith;
}

cmd-IsKept : (outcome : ℕ) → IsKept (device outcome) reg_cmd (λ s. word_at s reg_cmd)
cmd-IsKept outcome = device-IsKept outcome reg_cmd (omega arith)

dat-IsKept : (outcome : ℕ) → IsKept (device outcome) reg_wr_dat (λ s. word_at s reg_wr_dat)
dat-IsKept outcome = device-IsKept outcome reg_wr_dat (omega arith)

-- Every register holds 0xABCD1234.
abbrev block : Words
block a = 0xABCD1234

abbrev ready : MdioBus Words
ready = record { hw = block; state = state_ready }

-- A read of register 7 of device 3 behind PHY 5 returns the lower half of the data, and leaves the
-- reserved fields of the command word.
read_half :
    let (ret, bus) = fbiob_mdio_read_c45 (device 1) 5 3 7 ready in
    (ret ≡ ok 0x1234) × (bus.hw reg_cmd ≡ 0x705A3) × (bus.hw reg_sts ≡ 0)
unfolding fbiob_mdio_read_c45 wait_bus_ready poll_ready fbiob_mdio_clean_status finish_read command
read_half = (refl, refl, refl)

-- The second of two writes gets the error of the first, and is not started.
write_twice :
    let first = (fbiob_mdio_write_c45 (device 2) 0xDEAD 5 3 7 0x55 ready).1 in
    let (ret, second) = fbiob_mdio_write_c45 (device 2) 0xDEAD 5 3 8 0x66 first in
    (ret ≡ err eio) × (second.hw reg_wr_dat ≡ 0xDEAD0055)
unfolding fbiob_mdio_write_c45 wait_bus_ready poll_ready fbiob_mdio_clean_status command
write_twice = (refl, refl)

failed : sts_err (status (device 2) (fbiob_mdio_write_c45 (device 2) 0 5 3 7 0x55 ready).1) ≡ true
unfolding fbiob_mdio_write_c45 wait_bus_ready poll_ready fbiob_mdio_clean_status command
failed = refl

fbiob_mdio_read_c45-write_c45_example :
    let (done, written) = fbiob_mdio_write_c45 (device 2) 0 5 3 7 0x55 ready in
    let (ret, bus') = fbiob_mdio_read_c45 (device 2) 6 1 9 written in
    (done ≡ ok tt)
    × (ret ≡ err eio)
    × (bus'.state ≡ state_ready)
    × (bus'.hw reg_cmd ≡ written.hw reg_cmd)
    × (bus'.hw reg_wr_dat ≡ written.hw reg_wr_dat)
fbiob_mdio_read_c45-write_c45_example =
    fbiob_mdio_read_c45-write_c45 (device 2) (λ s. word_at s reg_cmd) (λ s. word_at s reg_wr_dat)
      (cmd-IsKept 2) (dat-IsKept 2) 0 5 3 7 0x55 6 1 9 ready refl failed

-- A controller whose status comes after two polls.
abbrev countdown : Mmio ℕ
countdown = record { readl = λ a s. ((if s == 0 then 1 else 0), s - 1); writel = λ a v s. s }

abbrev busy : MdioBus ℕ
busy = record { hw = 2; state = state_busy }

busy-Waits : Waits countdown 2 busy
busy-Waits zero h = (refl, refl)
busy-Waits (suc zero) h = (refl, refl)
busy-Waits (suc (suc j)) h = absurd (omega arith)

wait_bus_ready_ends_example :
    wait_bus_ready countdown busy ≡ (none, record { hw = 0; state = state_busy })
wait_bus_ready_ends_example =
    wait_bus_ready_ends countdown 2 busy (omega arith) (λ e. cc) busy-Waits refl

abbrev through : ℕ → MiiBus (MdioBus Words)
through outcome = record {
  mdiobus_c45_read = fbiob_mdio_read_c45 (device outcome);
  mdiobus_c45_write = fbiob_mdio_write_c45 (device outcome) 0;
}

through-IsThrough : (outcome : ℕ) → IsThrough (device outcome) 0 (through outcome)
through-IsThrough outcome = record {
  read_through = λ addr devad regnum bus. refl;
  write_through = λ addr devad regnum val bus. refl;
}

-- The numbers of user space are wider than the fields.
abbrev wanted : MdioXfer
wanted = record { phy_addr = 37; dev_addr = 3; reg_addr = 0x10007; reg_data = 0x10055 }

fb_mdio_cdev_ioctl_write_example :
    let ((ret, user), bus') = fb_mdio_cdev_ioctl (through 1) c45_write (some wanted) true ready in
    (ret ≡ ok tt)
    × (user ≡ some wanted)
    × (bus'.state ≡ state_busy)
    × (fields_of (bus'.hw reg_cmd)
        ≡ record (fields_of 0xABCD1234) { devad = 3; op = 0; phyad = 5; reg = 7 })
    × (field_of 0 16 (bus'.hw reg_wr_dat) ≡ 0x55)
fb_mdio_cdev_ioctl_write_example =
    fb_mdio_cdev_ioctl_write (device 1) (λ s. word_at s reg_cmd) (λ s. word_at s reg_wr_dat)
      (cmd-IsKept 1) (dat-IsKept 1) 0 (through 1) (through-IsThrough 1) wanted true ready refl

-- A controller over one PHY that answers with the sum of the addresses, and is done at the third
-- poll. The data register shows nothing of use before.
record Line : Type 0 where
  cmd : ℕ
  wr_dat : ℕ
  left : ℕ
  phase : Phase

abbrev sum_phy : (phyad devad reg : ℕ) → ℕ
sum_phy phyad devad reg = (phyad + devad + reg) % 65536

abbrev answer_of : CommandFields → ℕ
answer_of f = sum_phy f.phyad f.devad f.reg

abbrev poll_line : Phase → Line → ℕ × Line
poll_line (running w) s =
    if s.left == 0 then (1, record s { phase = ended w }) else (0, record s { left = s.left - 1 })
poll_line idle s = (0, s)
poll_line cleared s = (0, s)
poll_line (ended w) s = (1, s)
poll_line (holding w) s = (0, s)

abbrev line_data : Phase → ℕ
line_data (holding w) = answer_of (fields_of w)
line_data idle = 0xDEAD
line_data cleared = 0xDEAD
line_data (running w) = 0xDEAD
line_data (ended w) = 0xDEAD

abbrev started_phase : ℕ → Phase → Phase
started_phase v p = if is_clear p then running v else idle

abbrev line : Mmio Line
line = record {
  readl = λ a s. if a == reg_sts then poll_line s.phase s else (
    (if a == reg_cmd then s.cmd else if a == reg_wr_dat then s.wr_dat else line_data s.phase),
    s,
  );
  writel = λ a v s.
      if a == reg_sts
      then record s { phase = clean_phase s.phase }
      else if a == reg_cmd
      then record s { cmd = v; left = 2; phase = started_phase v s.phase }
      else if a == reg_wr_dat
      then record s { wr_dat = v }
      else s;
}

poll_line_keeps :
    (p : Phase) (s : Line) → ((poll_line p s).1.cmd ≡ s.cmd) × ((poll_line p s).1.wr_dat ≡ s.wr_dat)
poll_line_keeps (running w) s = (ground arith, ground arith)
poll_line_keeps idle s = (refl, refl)
poll_line_keeps cleared s = (refl, refl)
poll_line_keeps (ended w) s = (refl, refl)
poll_line_keeps (holding w) s = (refl, refl)

poll_line_phase :
    (p : Phase) (s : Line) → s.phase ≡ p → is_running p ≡ false → (poll_line p s).1.phase ≡ p
poll_line_phase (running w) s at h = cc
poll_line_phase idle s at h = at
poll_line_phase cleared s at h = at
poll_line_phase (ended w) s at h = at
poll_line_phase (holding w) s at h = at

poll_line_running :
    (p : Phase) (s : Line) (w : ℕ)
    → p ≡ running w
    → s.phase ≡ p
    → (poll_line p s).1.phase ≡ polled_phase w (poll_line p s).0
poll_line_running p s w e at = rw e (ground (arith, at, e))

answer_small : (f : CommandFields) → field_of 0 16 (answer_of f) ≡ answer_of f
answer_small f = omega arith

line-IsPhy : IsPhy line (λ s. s.phase) sum_phy
line-IsPhy = record {
  read_status = λ s w h. poll_line_running s.phase s w h refl;
  read_status_kept = λ s h. poll_line_phase s.phase s refl h;
  write_status = λ s v h. refl;
  read_command = λ s. refl;
  write_command = λ s v h. ground (arith, h);
  read_data = λ s w h o. ap (λ p. field_of 0 16 (line_data p)) h ∙ answer_small (fields_of w);
}

line_cmd-IsKept : IsKept line reg_cmd (λ s. s.cmd)
line_cmd-IsKept = record {
  read_own = λ s. refl;
  read_kept = λ s b. ground (arith, poll_line_keeps s.phase s);
  write_own = λ s v. refl;
  write_other = λ s b v ne. ground arith;
}

line_dat-IsKept : IsKept line reg_wr_dat (λ s. s.wr_dat)
line_dat-IsKept = record {
  read_own = λ s. refl;
  read_kept = λ s b. ground (arith, poll_line_keeps s.phase s);
  write_own = λ s v. refl;
  write_other = λ s b v ne. ground arith;
}

abbrev line_bus : MiiBus (MdioBus Line)
line_bus = record {
  mdiobus_c45_read = fbiob_mdio_read_c45 line;
  mdiobus_c45_write = fbiob_mdio_write_c45 line 0;
}

line_bus-IsThrough : IsThrough line 0 line_bus
line_bus-IsThrough = record {
  read_through = λ addr devad regnum bus. refl;
  write_through = λ addr devad regnum val bus. refl;
}

abbrev at_rest : MdioBus Line
at_rest = record {
  hw = record { cmd = 0xABCD1234; wr_dat = 0; left = 0; phase = idle };
  state = state_ready;
}

read_succeeds : (fb_mdio_cdev_ioctl line_bus c45_read (some wanted) true at_rest).0.0 ≡ ok tt
unfolding fb_mdio_cdev_ioctl fbiob_mdio_read_c45 wait_bus_ready poll_ready fbiob_mdio_clean_status
    finish_read command
read_succeeds = refl

-- PHY 5, device 3 and register 7 add up to 15.
fb_mdio_cdev_ioctl_read_example :
    let ((ret, user), bus') = fb_mdio_cdev_ioctl line_bus c45_read (some wanted) true at_rest in
    (bus'.state ≡ state_ready)
    × (fields_of bus'.hw.cmd
        ≡ record (fields_of 0xABCD1234) { devad = 3; op = 1; phyad = 5; reg = 7 })
    × (user ≡ some (record wanted { reg_data = 15 }))
fb_mdio_cdev_ioctl_read_example =
    fb_mdio_cdev_ioctl_read line (λ s. s.cmd) (λ s. s.wr_dat) line_cmd-IsKept line_dat-IsKept 0
      line_bus line_bus-IsThrough (λ s. s.phase) sum_phy line-IsPhy wanted at_rest refl refl
      read_succeeds
