-- ===== src/Spi/Outcome.antt =====
-- What a probe leaves registered, and what a transfer returns of its two parts.
use fboss_bsp_kmods.Base.{ℕ, ◌≡◌, ◌≢◌, arith, true, false, none, some, List, [], ◌∷◌}
use fboss_bsp_kmods.Base.{
  zero, suc, ◌+◌, ◌-◌, ◌≤◌, ◌<◌, refl, Bool, ◌++◌, ◌∙◌, if◌then◌else◌, ltb, ap, min, length,
  Bool-cases, inl, inr, get_elem?, set, replicate,
}
use fboss_bsp_kmods.Kernel.{Ret, ok, err, undefined}
use fboss_bsp_kmods.Kernel.Errno.{enxio}
use fboss_bsp_kmods.Mmio.{Mmio}
use fboss_bsp_kmods.Spi.{
  ret_of, SpiBus, SpiTransfer, fbiob_spi_xfer_tx, fbiob_spi_xfer_rx, fbiob_spi_xfer_one,
}
use fboss_bsp_kmods.Spi.Probe.{
  Clients, no_clients, Answers, SpiData, SpiDevInfo, destroy_slots, fbiob_spi_destroy_clients,
}
use fboss_bsp_kmods.Spi.Probe.{create_clients, fbiob_spi_init_clients, fbiob_spi_init_mmio}
use fboss_bsp_kmods.Spi.Probe.{fbiob_spi_probe, fbiob_spi_remove}

-- How many devices a result stands for, of those that were to be created.
abbrev pub devices_of : ℕ → Ret (Unit {0}) → ℕ
devices_of n (ok x) = n
devices_of n (err e) = 0
devices_of n undefined = 0

-- The slots when the first `i` of them hold a device and `m` do not.
abbrev slots_of : (i m : ℕ) → List Bool
slots_of i m = replicate i true ++ replicate m false

set-slots_of : (i m : ℕ) → set (slots_of i (suc m)) i true ≡ slots_of (suc i) m
set-slots_of zero m = refl
set-slots_of (suc i) m = ap (λ l. true ∷ l) (set-slots_of i m)

get_elem_below :
    (infos : List SpiDevInfo) (i : ℕ)
    → i < length infos
    → (info : SpiDevInfo) × (get_elem? infos i ≡ some info)
get_elem_below [] i h = absurd (omega arith)
get_elem_below (info ∷ infos) zero h = (info, refl)
get_elem_below (info ∷ infos) (suc i) h = get_elem_below infos i (omega arith)

destroy_empty : (n m r : ℕ) → destroy_slots n (replicate m false) r ≡ (replicate m false, r)
unfolding destroy_slots
destroy_empty zero m r = refl
destroy_empty (suc n) zero r = refl
destroy_empty (suc n) (suc m) r =
    ap (λ (x : List Bool × ℕ). (false ∷ x.0, x.1)) (destroy_empty n m r)

destroy_full : (n i m : ℕ) → i ≤ n → destroy_slots n (slots_of i m) i ≡ (replicate (i + m) false, 0)
unfolding destroy_slots
destroy_full n zero m h = let e : 0 + m ≡ m = omega arith in rw e (destroy_empty n m 0)
destroy_full zero (suc i) m h = absurd (omega arith)
destroy_full (suc n) (suc i) m h =
    let e : suc i + m ≡ suc (i + m) = omega arith in
    let f : suc i - 1 ≡ i = omega arith in
    rw (e, f) (ap (λ (x : List Bool × ℕ). (false ∷ x.0, x.1)) (destroy_full n i m (omega arith)))

-- No device, and every slot empty.
abbrev pub emptied : (max : ℕ) → Clients → Clients
emptied max c = record c { spidevs = replicate max false; registered = 0 }

destroy-emptied :
    (i m : ℕ) (c : Clients)
    → i ≤ c.num_spidevs
    → c.spidevs ≡ slots_of i m
    → c.registered ≡ i
    → fbiob_spi_destroy_clients c ≡ emptied (i + m) c
unfolding fbiob_spi_destroy_clients
destroy-emptied i m c h slots devices =
    let all : destroy_slots c.num_spidevs c.spidevs c.registered ≡ (replicate (i + m) false, 0) =
      rw (slots, devices) (destroy_full c.num_spidevs i m h) in
    ap (λ (x : List Bool × ℕ). record c { spidevs = x.0; registered = x.1 }) all

emptied-again : (max : ℕ) (c : Clients) → fbiob_spi_destroy_clients (emptied max c) ≡ emptied max c
unfolding fbiob_spi_destroy_clients
emptied-again max c =
    ap (λ (x : List Bool × ℕ). record c { spidevs = x.0; registered = x.1 })
      (destroy_empty c.num_spidevs max 0)

-- What setting up `num` devices is to end with, for a request with room for `max`.
abbrev Ends : (num max : ℕ) → Ret (Unit {0}) × Clients → Type 0
Ends num max (ret, c) =
    (ret ≢ undefined)
    × (c.registered ≡ devices_of num ret)
    × (fbiob_spi_destroy_clients c ≡ emptied max c)

create_step :
    (a : Answers) (infos : List SpiDevInfo) (i left : ℕ) (info : SpiDevInfo) (c : Clients)
    → get_elem? infos i ≡ some info
    → create_clients a infos i (suc left) c ≡ (
        if a.new_device info
        then create_clients a infos
            (suc i)
            left
            (record c { spidevs = set c.spidevs i true; registered = c.registered + 1 })
        else (err enxio, fbiob_spi_destroy_clients c))
unfolding create_clients
create_step a infos i left info c found = ground (arith, found)

create_outcome :
    (a : Answers) (infos : List SpiDevInfo) (i left m max : ℕ) (c : Clients)
    → left ≤ m
    → i + m ≡ max
    → length infos ≡ max
    → c.num_spidevs ≡ i + left
    → c.spidevs ≡ slots_of i m
    → c.registered ≡ i
    → Ends (i + left) max (create_clients a infos i left c)
unfolding create_clients
create_outcome a infos i zero m max c h room all num slots devices =
    (ground arith, omega arith, rw (← room) (destroy-emptied i m c (omega arith) slots devices))
create_outcome a infos i (suc left) zero max c h room all num slots devices = absurd (omega arith)
create_outcome a infos i (suc left) (suc m) max c h room all num slots devices =
    let (info, found) = get_elem_below infos i (omega arith) in
    let next : Clients = record c {
      spidevs = set c.spidevs i true;
      registered = c.registered + 1;
    } in
    let total : suc i + left ≡ i + suc left = omega arith in
    let slots' : set c.spidevs i true ≡ slots_of (suc i) m =
      ap (λ l. set l i true) slots ∙ set-slots_of i m in
    let gone : fbiob_spi_destroy_clients c ≡ emptied max c =
      rw (← room) (destroy-emptied i (suc m) c (omega arith) slots devices) in
    rw (create_step a infos i left info c found) (elim (Bool-cases (a.new_device info)) [
      | inl created ↦
          rw (created, ← total)
            (create_outcome a infos (suc i) left m max next (omega arith) (omega arith) all
              (omega arith) slots' (omega arith))
      | inr failed ↦ rw (failed, gone) (ground arith, refl, emptied-again max c)
    ])

init_clients_outcome :
    (max : ℕ) (a : Answers) (pdata : SpiData)
    → length pdata.spidevs ≡ max
    → Ends (min pdata.num_spidevs max) max (fbiob_spi_init_clients max a pdata (no_clients max))
unfolding fbiob_spi_init_clients
init_clients_outcome max a pdata all =
    let num : (if ltb max pdata.num_spidevs then max else pdata.num_spidevs)
        ≡ min pdata.num_spidevs max =
      ground arith in
    let e : 0 + min pdata.num_spidevs max ≡ min pdata.num_spidevs max = omega arith in
    rw num (
      rw e at (
        create_outcome a pdata.spidevs 0 (min pdata.num_spidevs max) max max
          (record (no_clients max) { num_spidevs = min pdata.num_spidevs max }) (omega arith)
          (omega arith) all (omega arith) refl refl))

-- For any capacity FBIOB_SPIDEV_MAX (1 in the driver), a request with that many entries for
-- devices and any number `num_spidevs` in it, a probe does not read beyond the entries; if it
-- succeeds, as many devices are registered as were asked for, cut down to the capacity, and if it
-- fails, none, whatever the kernel refuses; and removing the controller then leaves no device and
-- every slot empty.
pub fbiob_spi_probe_outcome :
    {S : Type 0} (io : Mmio S) (max : ℕ) (a : Answers) (pdata : SpiData) (s : S)
    → length pdata.spidevs ≡ max
    → let ((ret, c), s') = fbiob_spi_probe io max a pdata s in
      (ret ≢ undefined)
      × (c.registered ≡ devices_of (min pdata.num_spidevs max) ret)
      × (fbiob_spi_remove c ≡ record c { spidevs = replicate max false; registered = 0 })
unfolding fbiob_spi_probe fbiob_spi_init_mmio fbiob_spi_remove
fbiob_spi_probe_outcome io max a pdata s all =
    let made = init_clients_outcome max a pdata all in
    let none_made = emptied-again max (no_clients max) in
    (ground (arith, made), ground (arith, made), ground (arith, made, none_made))

module _ {S : Type 0} (io : Mmio S) (bus : SpiBus) where
  -- If a transmit fails, a transfer with both buffers returns what the receive returns; with the
  -- transmit buffer alone it returns the error, and with neither buffer what was not initialized.
  pub fbiob_spi_xfer_one_masks :
      (xfer : SpiTransfer) (txbuf : List ℕ) (e : ℕ) (s : S)
      → xfer.tx_buf ≡ some txbuf
      → xfer.rx_buf ≡ true
      → (fbiob_spi_xfer_tx io bus txbuf s).0 ≡ some e
      → let s' = (fbiob_spi_xfer_tx io bus txbuf s).1 in
        ((fbiob_spi_xfer_one io bus xfer s).0.0 ≡ ret_of (fbiob_spi_xfer_rx io bus xfer.len s').0.0)
        × ((fbiob_spi_xfer_one io bus (record xfer { rx_buf = false }) s).0.0 ≡ err e)
        × ((fbiob_spi_xfer_one io bus (record xfer { tx_buf = none; rx_buf = false }) s).0.0
            ≡ undefined)
  unfolding fbiob_spi_xfer_one
  fbiob_spi_xfer_one_masks xfer txbuf e s h p q = (ground arith, ground arith, ground arith)
