-- ===== src/Regbit/Setup/Attrs.antt =====
-- The loop that sets up the entries of a handle, and the loop that takes them down.
use fboss_bsp_kmods.Base.{ℕ, zero, suc, ◌+◌, ◌-◌, ◌≡◌, ◌≢◌, ◌⊎◌, inl, inr, arith, refl, none, some}
use fboss_bsp_kmods.Base.{List, [], ◌∷◌, ◌++◌, map, length, set, replicate, length-append, ap, ap₂}
use fboss_bsp_kmods.Kernel.{Ret, ok, err, undefined}
use fboss_bsp_kmods.Regbit.{Config}
use fboss_bsp_kmods.Regbit.Setup.{RegmapConfig, regbit_config_check, Entry, Handle, World}
use fboss_bsp_kmods.Regbit.Setup.{regbit_attr_uninit, file_of, regbit_attr_init}

abbrev pub entry_of : Config → Entry
entry_of c = record { config = c; dev_attr = file_of c }

-- A handle with the entries of `done` set up, and room for `left` more.
abbrev pub ready : List Config → ℕ → Handle
ready done left = record {
  entries = map (λ c. some (entry_of c)) done ++ replicate left none;
  attrs = map (λ c. some (file_of c)) done ++ replicate (suc left) none;
}

-- The first complaint of `regbit_config_check`, in the order of the array.
unfoldable pub checks : RegmapConfig → List Config → Ret (Unit {0})
checks cfg [] = ok tt
checks cfg (c ∷ cs) =
    let rest = checks cfg cs in
    elim (regbit_config_check c cfg) [ ok _ ↦ rest | err e ↦ err e | undefined ↦ undefined ]

regbit_config_check-ne-undefined :
    (c : Config) (cfg : RegmapConfig) → regbit_config_check c cfg ≢ undefined
unfolding regbit_config_check
regbit_config_check-ne-undefined c cfg = ground arith

check_cases :
    (c : Config) (cfg : RegmapConfig)
    → (regbit_config_check c cfg ≡ ok tt) ⊎ ((e : ℕ) × (regbit_config_check c cfg ≡ err e))
check_cases c cfg = by_result (regbit_config_check c cfg) (regbit_config_check-ne-undefined c cfg)
  where
    by_result : (r : Ret (Unit {0})) → r ≢ undefined → (r ≡ ok tt) ⊎ ((e : ℕ) × (r ≡ err e))
    by_result (ok x) h = inl refl
    by_result (err e) h = inr (e, refl)
    by_result undefined h = absurd (h refl)

pub checks-ne-undefined : (cfg : RegmapConfig) (cs : List Config) → checks cfg cs ≢ undefined
unfolding checks
checks-ne-undefined cfg [] = ground arith
checks-ne-undefined cfg (c ∷ cs) =
    ground (arith, checks-ne-undefined cfg cs, regbit_config_check-ne-undefined c cfg)

module _ {ℓ κ} {A : Type ℓ} {B : Type κ} (f : A → B) where
  set_next :
      (done : List A) (x : A) (y : B) (rest : List B)
      → set (map f done ++ y ∷ rest) (length done) (f x) ≡ map f (done ++ x ∷ []) ++ rest
  set_next [] x y rest = refl
  set_next (d ∷ done) x y rest = ap (λ l. f d ∷ l) (set_next done x y rest)

append_one {ℓ} :
    {A : Type ℓ} (done : List A) (x : A) (xs : List A) → (done ++ x ∷ []) ++ xs ≡ done ++ x ∷ xs
append_one [] x xs = refl
append_one (d ∷ done) x xs = ap (λ l. d ∷ l) (append_one done x xs)

append_nil {ℓ} : {A : Type ℓ} (done : List A) → done ++ [] ≡ done
append_nil [] = refl
append_nil (d ∷ done) = ap (λ l. d ∷ l) (append_nil done)

length_next {ℓ} : {A : Type ℓ} (done : List A) (x : A) → suc (length done) ≡ length (done ++ x ∷ [])
length_next done x = omega (arith, length-append done (x ∷ []))

abbrev add_locks : World → ℕ → World
add_locks w n = record w { locks = w.locks + n }

abbrev drop_locks : World → ℕ → World
drop_locks w n = record w { locks = w.locks - n }

uninit_none : (n : ℕ) (w : World) → regbit_attr_uninit (replicate n none) w ≡ w
unfolding regbit_attr_uninit
uninit_none zero w = refl
uninit_none (suc n) w = uninit_none n w

-- Taking a handle down destroys the lock of every entry that was set up.
pub regbit_attr_uninit-ready :
    (done : List Config) (left : ℕ) (w : World)
    → regbit_attr_uninit (ready done left).entries w ≡ drop_locks w (length done)
unfolding regbit_attr_uninit
regbit_attr_uninit-ready [] left w = ground (arith, uninit_none left w)
regbit_attr_uninit-ready (c ∷ done) left w =
    ground (arith, regbit_attr_uninit-ready done left (record w { locks = w.locks - 1 }))

-- One round of the loop sets up one more entry.
ready_next :
    (done : List Config) (c : Config) (left : ℕ)
    → (let h = ready done (suc left) in
        record {
          entries = set h.entries (length done) (some (entry_of c));
          attrs = set h.attrs (length done) (some (file_of c));
        })
      ≡ ready (done ++ c ∷ []) left
ready_next done c left = ground (
  arith,
  set_next {A = Config} (λ c. some (entry_of c)) done c none (replicate left none),
  set_next {A = Config} (λ c. some (file_of c)) done c none (replicate (suc left) none),
)

module _ (cfg : RegmapConfig) where
  init_next :
      (c : Config) (cs done : List Config) (w : World)
      → regbit_config_check c cfg ≡ ok tt
      → regbit_attr_init cfg (length done) (c ∷ cs) (ready done (length (c ∷ cs))) w
        ≡ regbit_attr_init cfg
            (length (done ++ c ∷ []))
            cs
            (ready (done ++ c ∷ []) (length cs))
            (add_locks w 1)
  unfolding regbit_attr_init
  init_next c cs done w h =
      rw (h, regbit_attr_init)
        (ap₂ (λ i r. regbit_attr_init cfg i cs r (add_locks w 1)) (length_next done c)
          (ready_next done c (length cs)))

  -- If every configuration passes, each gets its entry, its attribute and its lock.
  pub regbit_attr_init_ok :
      (cs done : List Config) (w : World)
      → checks cfg cs ≡ ok tt
      → regbit_attr_init cfg (length done) cs (ready done (length cs)) w
        ≡ (ok tt, ready (done ++ cs) 0, add_locks w (length cs))
  unfolding checks
  regbit_attr_init_ok [] done w h = unfold regbit_attr_init in ground (arith, append_nil done)
  regbit_attr_init_ok (c ∷ cs) done w h = elim (check_cases c cfg) [
    | inl passed ↦ ground (
      arith,
      init_next c cs done w passed,
      regbit_attr_init_ok cs (done ++ c ∷ []) (add_locks w 1),
      append_one done c cs,
    )
    | inr (e, failed) ↦ ground arith
  ]

  -- If one does not pass, the code of the first is returned, and every lock made is destroyed.
  pub regbit_attr_init_err :
      (cs done : List Config) (w : World) (e : ℕ)
      → checks cfg cs ≡ err e
      → (h : Handle) × (regbit_attr_init cfg (length done) cs (ready done (length cs)) w
          ≡ (err e, h, drop_locks w (length done)))
  unfolding checks
  regbit_attr_init_err [] done w e h = cc
  regbit_attr_init_err (c ∷ cs) done w e h = elim (check_cases c cfg) [
    | inl passed ↦
        let (handle, rest) =
          regbit_attr_init_err cs (done ++ c ∷ []) (add_locks w 1) e (ground arith) in
        (handle, ground (arith, init_next c cs done w passed, rest, length_next done c))
    | inr (e', failed) ↦ (
      ready done (length (c ∷ cs)),
      unfold regbit_attr_init in ground (arith, regbit_attr_uninit-ready done (length (c ∷ cs)) w),
    )
  ]
