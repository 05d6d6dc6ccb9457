-- ===== src/Auxdev/Bus.antt =====
-- The list of a bus, the devices of the kernel and the memory of the adapters agree, after every
-- ioctl and to the end.
use fboss_bsp_kmods.Base.{ℕ, suc, ◌≡◌, ◌≢◌, arith, refl, Bool, true, false, List, [], ◌∷◌}
use fboss_bsp_kmods.Base.{Option, none, some, length, any, text_eq, text_eq_refl, text_eq→eq, ◌&&◌}
use fboss_bsp_kmods.Base.{not, Bool-cases, Option-cases, inl, inr, ap, ap₂, ◌∙◌}
use fboss_bsp_kmods.Auxdev.{AuxId, AuxData, AuxBus, AddDevice, Answers, fbiob_auxdev_match}
use fboss_bsp_kmods.Auxdev.{auxiliary_device_delete, take_match, unplug, fbiob_auxdev_remove}
use fboss_bsp_kmods.Auxdev.{fbiob_auxdev_add, unplug_all, fbiob_auxbus_destroy, CdevDesc, Command}
use fboss_bsp_kmods.Auxdev.{new_device, del_device, other, fbiob_cdev_ioctl, aux_data_validate}

abbrev pub ids : List AuxData → List AuxId
ids [] = []
ids (d ∷ ds) = d.id ∷ ids ds

-- No two devices have the same name and number.
abbrev pub distinct : List AuxData → Bool
distinct [] = true
distinct (d ∷ ds) = not (any (λ a. fbiob_auxdev_match a d.id) (ids ds)) && distinct ds

-- The kernel's devices are those of the list, in its order, no two with the same id, and each has
-- its adapter in memory.
abbrev pub IsValid : AuxBus → Type 0
IsValid bus =
    (bus.added ≡ ids bus.devices)
    × (distinct bus.devices ≡ true)
    × (bus.allocated ≡ length bus.devices)

-- The kernel does not add a device under a name that is taken.
abbrev pub RefusesTaken : AddDevice → Type 0
RefusesTaken add_device =
    (added : List AuxId) (id : AuxId)
    → any (λ a. fbiob_auxdev_match a id) added ≡ true
    → add_device added id ≢ none

pub match_refl : (i : AuxId) → fbiob_auxdev_match i i ≡ true
unfolding fbiob_auxdev_match
match_refl i = ground (arith, text_eq_refl i.name)

abbrev aux_id : List ℕ → ℕ → AuxId
aux_id n i = record { name = n; id = i }

match→eq : (a b : AuxId) → fbiob_auxdev_match a b ≡ true → a ≡ b
unfolding fbiob_auxdev_match
match→eq a b h =
    let same : text_eq a.name b.name ≡ true = ground arith in
    let number : a.id ≡ b.id = ground arith in ap₂ aux_id (text_eq→eq a.name b.name same) number

-- What the search finds is what the kernel deletes, and shortens the list by one.
take_match-found :
    (i : AuxId) (ds : List AuxData) (d : AuxData) (left : List AuxData)
    → take_match i ds ≡ some (d, left)
    → (auxiliary_device_delete i (ids ds) ≡ ids left)
      × (fbiob_auxdev_match d.id i ≡ true)
      × (length ds ≡ suc (length left))
unfolding take_match auxiliary_device_delete
take_match-found i [] d left h = ground arith
take_match-found i (x ∷ ds) d left h = elim (Option-cases (take_match i ds)) [
  | inl e ↦ ground arith
  | inr ((f, others), e) ↦ ground (arith, take_match-found i ds f others e)
]

take_match-any :
    (p : AuxId → Bool) (i : AuxId) (ds : List AuxData) (d : AuxData) (left : List AuxData)
    → take_match i ds ≡ some (d, left)
    → any p (ids ds) ≡ false
    → any p (ids left) ≡ false
unfolding take_match
take_match-any p i [] d left h q = ground arith
take_match-any p i (x ∷ ds) d left h q = elim (Option-cases (take_match i ds)) [
  | inl e ↦ ground arith
  | inr ((f, others), e) ↦ ground (arith, take_match-any p i ds f others e)
]

take_match-distinct :
    (i : AuxId) (ds : List AuxData) (d : AuxData) (left : List AuxData)
    → take_match i ds ≡ some (d, left)
    → distinct ds ≡ true
    → distinct left ≡ true
unfolding take_match
take_match-distinct i [] d left h q = ground arith
take_match-distinct i (x ∷ ds) d left h q = elim (Option-cases (take_match i ds)) [
  | inl e ↦ ground arith
  | inr ((f, others), e) ↦ ground (
    arith,
    take_match-distinct i ds f others e,
    take_match-any (λ a. fbiob_auxdev_match a x.id) i ds f others e,
  )
]

fbiob_auxdev_remove-IsValid :
    (i : AuxId) (bus : AuxBus) → IsValid bus → IsValid (fbiob_auxdev_remove i bus).1
unfolding fbiob_auxdev_remove unplug
fbiob_auxdev_remove-IsValid i bus (same, apart, counted) =
    elim (Option-cases (take_match i bus.devices)) [
      | inl e ↦ (ground arith, ground arith, ground arith)
      | inr ((d, left), e) ↦
          let (gone, matched, shorter) = take_match-found i bus.devices d left e in
          let own : d.id ≡ i = match→eq d.id i matched in
          let deleted : auxiliary_device_delete d.id bus.added ≡ ids left =
            ap₂ auxiliary_device_delete own same ∙ gone in
          (
            ground (arith, deleted),
            ground (arith, take_match-distinct i bus.devices d left e apart),
            ground (arith, shorter),
          )
    ]

fbiob_auxdev_add-IsValid :
    (add_device : AddDevice) (a : Answers) (d : AuxData) (bus : AuxBus)
    → RefusesTaken add_device
    → IsValid bus
    → IsValid (fbiob_auxdev_add add_device a d bus).1
unfolding fbiob_auxdev_add
fbiob_auxdev_add-IsValid add_device a d bus refuses (same, apart, counted) =
    let taken : any (λ x. fbiob_auxdev_match x d.id) (ids bus.devices) ≡ true
        → add_device bus.added d.id ≢ none =
      λ h. refuses bus.added d.id (ap (λ l. any (λ x. fbiob_auxdev_match x d.id) l) same ∙ h) in
    (ground (arith, same), ground (arith, taken), ground (arith, counted))

-- With a kernel that adds no device under a name that is taken, every ioctl on an FPGA, whether
-- it succeeds or not, leads from a valid bus to a valid bus: the kernel's devices are those of
-- the list, no two with the same name and number, and the adapters in memory are exactly theirs.
pub fbiob_cdev_ioctl-IsValid :
    (add_device : AddDevice) (a : Answers) (cdesc : CdevDesc) (cmd : Command) (d : Option AuxData)
    (bus : AuxBus)
    → RefusesTaken add_device
    → IsValid bus
    → IsValid (fbiob_cdev_ioctl add_device a cdesc cmd d bus).1
unfolding fbiob_cdev_ioctl
fbiob_cdev_ioctl-IsValid add_device a cdesc cmd none bus r v = v
fbiob_cdev_ioctl-IsValid add_device a cdesc new_device (some d) bus r v =
    elim (Option-cases (aux_data_validate cdesc d).0) [
      | inl e ↦
          rw (fbiob_cdev_ioctl, e)
            (fbiob_auxdev_add-IsValid add_device a (aux_data_validate cdesc d).1 bus r v)
      | inr (err, e) ↦ rw (fbiob_cdev_ioctl, e) v
    ]
fbiob_cdev_ioctl-IsValid add_device a cdesc del_device (some d) bus r v =
    fbiob_auxdev_remove-IsValid d.id bus v
fbiob_cdev_ioctl-IsValid add_device a cdesc other (some d) bus r v = v

take_match-none :
    (i : AuxId) (ds : List AuxData)
    → any (λ a. fbiob_auxdev_match a i) (ids ds) ≡ false
    → take_match i ds ≡ none
unfolding take_match
take_match-none i [] h = refl
take_match-none i (x ∷ ds) h = ground (arith, take_match-none i ds)

-- Adding a device that fails, for whatever reason, leaves the bus and the memory as they were.
pub fbiob_auxdev_add_err :
    (add_device : AddDevice) (a : Answers) (d : AuxData) (bus : AuxBus)
    → (fbiob_auxdev_add add_device a d bus).0 ≢ none
    → (fbiob_auxdev_add add_device a d bus).1 ≡ bus
unfolding fbiob_auxdev_add
fbiob_auxdev_add_err add_device a d bus h = ground arith

-- With a kernel that adds no device under a name that is taken, a device that was added to a
-- valid bus can be removed by its name and number, which gives back the bus as it was, and on
-- that bus the same removal fails with ENXIO.
pub fbiob_auxdev_remove-add :
    (add_device : AddDevice) (a : Answers) (d : AuxData) (bus : AuxBus)
    → RefusesTaken add_device
    → IsValid bus
    → (fbiob_auxdev_add add_device a d bus).0 ≡ none
    → let after = (fbiob_auxdev_add add_device a d bus).1 in
      (fbiob_auxdev_remove d.id after ≡ (none, bus))
      × (fbiob_auxdev_remove d.id bus ≡ (some 6, bus))
unfolding fbiob_auxdev_add fbiob_auxdev_remove unplug take_match auxiliary_device_delete
fbiob_auxdev_remove-add add_device a d bus refuses (same, apart, counted) h =
    let free : any (λ x. fbiob_auxdev_match x d.id) (ids bus.devices) ≡ false =
      elim (Bool-cases (any (λ x. fbiob_auxdev_match x d.id) (ids bus.devices))) [
        | inl taken ↦ absurd (
            refuses bus.added d.id (ap (λ l. any (λ x. fbiob_auxdev_match x d.id) l) same ∙ taken)
              (ground arith))
        | inr absent ↦ absent
      ] in
    (ground (arith, match_refl d.id), ground (arith, take_match-none d.id bus.devices free))

unplug_all-empties :
    (ds : List AuxData) (bus : AuxBus)
    → bus.devices ≡ ds
    → bus.added ≡ ids ds
    → bus.allocated ≡ length ds
    → let done = unplug_all ds bus in (done.devices ≡ []) × (done.added ≡ []) × (done.allocated ≡ 0)
unfolding unplug_all unplug auxiliary_device_delete
unplug_all-empties [] bus h1 h2 h3 = (h1, h2, h3)
unplug_all-empties (d ∷ ds) bus h1 h2 h3 =
    unplug_all-empties ds (unplug d ds bus) refl
      (ap (auxiliary_device_delete d.id) h2 ∙ ground (arith, match_refl d.id)) (omega arith)

-- Destroying a valid bus removes every device and frees every adapter.
pub fbiob_auxbus_destroy_empties :
    (bus : AuxBus)
    → IsValid bus
    → let done = fbiob_auxbus_destroy bus in
      (done.devices ≡ []) × (done.added ≡ []) × (done.allocated ≡ 0)
unfolding fbiob_auxbus_destroy
fbiob_auxbus_destroy_empties bus (same, apart, counted) =
    unplug_all-empties bus.devices bus refl same counted
