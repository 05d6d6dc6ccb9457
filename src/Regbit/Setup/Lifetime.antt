-- ===== src/Regbit/Setup/Lifetime.antt =====
-- What creating the files of a device leaves behind, on every path, and what removing them undoes.
use fboss_bsp_kmods.Base.{ℕ, ◌+◌, ◌≡◌, ◌⊎◌, inl, inr, arith, refl, none, some}
use fboss_bsp_kmods.Base.{List, [], ◌∷◌, map, length, ap, not, if◌then◌else◌}
use fboss_bsp_kmods.Kernel.{Ret, ok, err, undefined}
use fboss_bsp_kmods.Kernel.Errno.{enomem}
use fboss_bsp_kmods.Regbit.{Config}
use fboss_bsp_kmods.Regbit.Setup.{RegmapConfig, World, Answers, file_of, until_null}
use fboss_bsp_kmods.Regbit.Setup.{regbit_handle_free, regbit_handle_alloc}
use fboss_bsp_kmods.Regbit.Setup.{publish, regbit_sysfs_uninit, regbit_sysfs_init_common}
use fboss_bsp_kmods.Regbit.Setup.Attrs.{ready, checks, checks-ne-undefined}
use fboss_bsp_kmods.Regbit.Setup.Attrs.{
  regbit_attr_uninit-ready, regbit_attr_init_ok, regbit_attr_init_err,
}

until_null-ready :
    (configs : List Config) → until_null (ready configs 0).attrs ≡ map file_of configs
unfolding until_null
until_null-ready [] = refl
until_null-ready (c ∷ cs) = ap (λ l. file_of c ∷ l) (until_null-ready cs)

abbrev allocated : World → World
allocated w = record w {
  handles = w.handles + 1;
  attr_arrays = w.attr_arrays + 1;
  entry_arrays = w.entry_arrays + 1;
}

-- The state of a device whose files stand: its allocations, a lock for each file, the group, and
-- the handle that is freed with the device.
abbrev pub created : List Config → World → World
created configs w = record w {
  handles = w.handles + 1;
  attr_arrays = w.attr_arrays + 1;
  entry_arrays = w.entry_arrays + 1;
  locks = w.locks + length configs;
  group = some (map file_of configs);
  action = some (ready configs 0);
}

-- The first thing that goes wrong, in the order in which the code asks.
unfoldable pub outcome : Answers → List Config → RegmapConfig → Ret (Unit {0})
outcome a configs cfg =
    if not a.got_handle
    then err enomem
    else if not a.got_attrs
    then err enomem
    else if not a.got_entries
    then err enomem
    else elim (checks cfg configs) [
      | err e ↦ err e
      | undefined ↦ undefined
      | ok _ ↦ elim a.create_group [
        | some e ↦ err e
        | none ↦ elim a.add_action [ some e ↦ err e | none ↦ ok tt ]
      ]
    ]

-- What a result leaves behind.
abbrev pub after : Ret (Unit {0}) → List Config → World → World
after (ok _) configs w = created configs w
after (err e) configs w = w
after undefined configs w = w

checks_cases :
    (cfg : RegmapConfig) (cs : List Config)
    → (checks cfg cs ≡ ok tt) ⊎ ((e : ℕ) × (checks cfg cs ≡ err e))
checks_cases cfg cs = by_result (checks cfg cs) (checks-ne-undefined cfg cs)
  where
    by_result : (r : Ret (Unit {0})) → ¬ (r ≡ undefined) → (r ≡ ok tt) ⊎ ((e : ℕ) × (r ≡ err e))
    by_result (ok x) h = inl refl
    by_result (err e) h = inr (e, refl)
    by_result undefined h = absurd (h refl)

-- Creating the files of a device that has no group yet returns the first error, in the order of
-- the code, and then leaves memory, locks and files as they were, or it succeeds with everything
-- created.
pub regbit_sysfs_init_common-outcome :
    (a : Answers) (configs : List Config) (cfg : RegmapConfig) (w : World)
    → w.group ≡ none
    → regbit_sysfs_init_common a configs cfg w
      ≡ (outcome a configs cfg, after (outcome a configs cfg) configs w)
unfolding regbit_sysfs_init_common regbit_handle_alloc outcome publish regbit_handle_free
    regbit_sysfs_uninit
regbit_sysfs_init_common-outcome a configs cfg w g = elim (checks_cases cfg configs) [
  | inl passed ↦ ground (
    arith,
    regbit_attr_init_ok cfg configs [] (allocated w) passed,
    until_null-ready configs,
    regbit_attr_uninit-ready configs 0 (record (allocated w) { locks = w.locks + length configs }),
    regbit_attr_uninit-ready configs 0
        (record (allocated w) { locks = w.locks + length configs; group = none }),
  )
  | inr (e, failed) ↦
      let (h, stopped) = regbit_attr_init_err cfg configs [] (allocated w) e failed in
      ground (arith, stopped)
]

-- Removing the files that were created for a device that had no group gives back the memory, the
-- locks and the group that creating them took.
pub regbit_sysfs_uninit-created :
    (configs : List Config) (w : World)
    → w.group ≡ none
    → regbit_sysfs_uninit (ready configs 0) (created configs w)
      ≡ record w { action = some (ready configs 0) }
unfolding regbit_sysfs_uninit regbit_handle_free
regbit_sysfs_uninit-created configs w g =
    ground (arith, regbit_attr_uninit-ready configs 0 (record (created configs w) { group = none }))
