-- ===== src/Scmcpld/Outcome.antt =====
-- What the probe of a SCM CPLD driver leaves once its LEDs are set up.
use mathlib.Core.List.{append_assoc, append-nil}
use fboss_bsp_kmods.Base.{
  ℕ, ◌+◌, ◌≡◌, arith, refl, sym, ap, ap₂, ◌∙◌, Bool, true, false, not, if◌then◌else◌, none, some,
  Option-cases, inl, inr, get_elem?, List, [], ◌∷◌, ◌++◌, map,
}
use fboss_bsp_kmods.Kernel.{Ret, ok, err, undefined, Ret-cases, Regmap}
use fboss_bsp_kmods.Regbit.{Config}
use fboss_bsp_kmods.Regbit.Setup.{World, regbit_sysfs_init_i2c}
use fboss_bsp_kmods.Regbit.Setup.Lifetime.{after}
use fboss_bsp_kmods.Tables.Sound.{i2c_tables}
use fboss_bsp_kmods.Tables.Created.{granted, i2c_tables_created}
use fboss_bsp_kmods.Scmcpld.{LedColor, led_color_info}
use fboss_bsp_kmods.Scmcpld.Probe.{LedsInfo, Led, Panel, Answers, led_of, init_colors, init_led}
use fboss_bsp_kmods.Scmcpld.Probe.{
  front_panel_leds_init, then_files, then_files_or_undo, undo, scmcpld_probe, scmcpld_probe_or_undo,
}

-- The LEDs of a table, LED by LED and colour by colour.
abbrev pub panel_leds : List LedsInfo → List Led
panel_leds [] = []
panel_leds (info ∷ infos) = map (led_of info) led_color_info ++ panel_leds infos

abbrev add_leds : Panel → List Led → Panel
add_leds p leds = record p { leds = p.leds ++ leds }

colors_ok :
    (a : Answers) (info : LedsInfo) (colors : List LedColor) (p : Panel)
    → (init_colors a info colors p).0 ≡ ok tt
    → (init_colors a info colors p).1 ≡ add_leds p (map (led_of info) colors)
unfolding init_colors
colors_ok a info [] p h = ap (λ l. record p { leds = l }) (sym (append-nil p.leds))
colors_ok a info (c ∷ cs) p h = elim (Option-cases (a.register_led (led_of info c).name)) [
  | inl passed ↦
      let rest =
        colors_ok a info cs (add_leds p (led_of info c ∷ [])) (ground (arith, passed, h)) in
      let joined =
        rest
        ∙ ap (λ l. record p { leds = l })
            (append_assoc p.leds (led_of info c ∷ []) (map (led_of info) cs)) in
      ground (arith, passed, joined)
  | inr (e, failed) ↦ absurd (ground (arith, failed, h))
]

-- How many mutexes a result stands for.
abbrev pub mutex_of : Ret (Unit {0}) → ℕ
mutex_of (ok x) = 1
mutex_of (err e) = 0
mutex_of undefined = 1

opened : {A : Type 0} {b : Bool} (x : A) → b ≡ true → (y : A) → (if not b then x else y) ≡ y
opened x e y = ap (λ c. if not c then x else y) e

-- What the kernel answers first for the files: the register map, then the files themselves.
abbrev pub answered : Answers → Ret (Unit {0})
answered a = elim a.regmap [ some e ↦ err e | none ↦ granted a.files ]

module _ {S : Type 0} (client : Regmap S) (a : Answers) where
  init_led_ok :
      (info : LedsInfo) (p : Panel) (r : Ret ℕ × S)
      → (init_led client a info p r).0 ≡ ok tt
      → (init_led client a info p r).1 ≡ add_leds p (map (led_of info) led_color_info)
  init_led_ok info p (ok v, s) h = colors_ok a info led_color_info p h
  init_led_ok info p (err e, s) h = cc
  init_led_ok info p (undefined, s) h = cc

  leds_ok :
      (infos : List LedsInfo) (p : Panel) (s : S)
      → (front_panel_leds_init client a infos p s).0 ≡ ok tt
      → (front_panel_leds_init client a infos p s).1 ≡ add_leds p (panel_leds infos)
  unfolding front_panel_leds_init
  leds_ok [] p s h = ap (λ l. record p { leds = l }) (sym (append-nil p.leds))
  leds_ok (info ∷ infos) p s h =
      let one = init_led client a info p (client.read info.reg_addr s) in
      let leds = map (led_of info) led_color_info in
      elim (Ret-cases one.0) [
        | inl (_, passed) ↦
            let first = init_led_ok info p (client.read info.reg_addr s) passed in
            let rest = leds_ok infos one.1 one.2 (ground (arith, passed, h)) in
            let joined =
              rest
              ∙ ap (λ (q : Panel). add_leds q (panel_leds infos)) first
              ∙ ap (λ l. record p { leds = l }) (append_assoc p.leds leds (panel_leds infos)) in
            ground (arith, passed, joined)
        | inr (inl (e, failed)) ↦ absurd (ground (arith, failed, h))
        | inr (inr lost) ↦ absurd (ground (arith, lost, h))
      ]

  undo_lem :
      (r : Ret (Unit {0})) (p : Panel) (n : ℕ) (s : S)
      → p.mutexes ≡ n + 1
      → let (ret, q, u) = undo client (r, p, s) in
        (ret ≡ r) × (q.leds ≡ p.leds) × (q.files ≡ p.files) × (q.mutexes ≡ n + mutex_of r)
  undo_lem (ok x) p n s h = (refl, refl, refl, h)
  undo_lem (err e) p n s h = (refl, refl, refl, omega (arith, h))
  undo_lem undefined p n s h = (refl, refl, refl, h)

  -- The files of a table on an I2C bus, whatever the kernel answers.
  files_lem :
      (k : ℕ) (sysfs_files : List Config) (w : World)
      → get_elem? i2c_tables k ≡ some sysfs_files
      → w.group ≡ none
      → regbit_sysfs_init_i2c a.regmap a.files sysfs_files w
        ≡ (answered a, after (answered a) sysfs_files w)
  unfolding regbit_sysfs_init_i2c
  files_lem k sysfs_files w at_k fresh = elim (Option-cases a.regmap) [
    | inl map_ok ↦ rw map_ok (i2c_tables_created k sysfs_files a.files w at_k fresh)
    | inr (e, failed) ↦ rw failed refl
  ]

  -- What a probe is to end with, for a driver that destroys its mutex on a refusal or keeps it.
  abbrev pub Ends : Bool → List Config → List LedsInfo → Panel → Ret (Unit {0}) × Panel × S → Type 0
  Ends undoes sysfs_files leds_table p (ret, p', s') =
      (ret ≡ answered a)
      × (p'.leds ≡ p.leds ++ panel_leds leds_table)
      × (p'.files ≡ after (answered a) sysfs_files p.files)
      × (p'.mutexes ≡ p.mutexes + (if undoes then mutex_of (answered a) else 1))

  module _ (k : ℕ) (sysfs_files : List Config) (leds_table : List LedsInfo) (p : Panel) (s : S)
      (at_k : get_elem? i2c_tables k ≡ some sysfs_files) (got : a.got_data ≡ true)
      (fresh : p.files.group ≡ none)
      (h : (front_panel_leds_init client a leds_table (record p { mutexes = p.mutexes + 1 }) s).0
        ≡ ok tt) where
    begun : Panel
    begun = record p { mutexes = p.mutexes + 1 }

    set_up : Ret (Unit {0}) × Panel × S
    set_up = front_panel_leds_init client a leds_table begun s

    filed : Panel
    filed = record begun {
      leds = p.leds ++ panel_leds leds_table;
      files = after (answered a) sysfs_files p.files;
    }

    front_lem : set_up ≡ (ok tt, add_leds begun (panel_leds leds_table), set_up.2)
    unfolding set_up begun
    front_lem =
        ap₂ (λ (r : Ret (Unit {0})) (q : Panel). (r, q, set_up.2)) h (leds_ok leds_table begun s h)

    filed_lem : then_files client a sysfs_files set_up ≡ (answered a, filed, set_up.2)
    unfolding filed begun
    filed_lem =
        ap (then_files client a sysfs_files) front_lem
        ∙ ap
            (λ (x : Ret (Unit {0}) × World).
              (x.0, record (add_leds begun (panel_leds leds_table)) { files = x.1 }, set_up.2))
            (files_lem k sysfs_files p.files at_k fresh)

    pub scmcpld_probe-Ends :
        Ends false sysfs_files leds_table p (scmcpld_probe client a leds_table sysfs_files p s)
    unfolding scmcpld_probe filed begun set_up
    scmcpld_probe-Ends =
        let plain : scmcpld_probe client a leds_table sysfs_files p s
            ≡ (answered a, filed, set_up.2) =
          opened _ got (then_files client a sysfs_files set_up) ∙ filed_lem in
        rw plain (refl, refl, refl, refl)

    pub scmcpld_probe_or_undo-Ends :
        Ends true sysfs_files leds_table p
          (scmcpld_probe_or_undo client a leds_table sysfs_files p s)
    unfolding scmcpld_probe_or_undo filed begun set_up
    scmcpld_probe_or_undo-Ends =
        let undone : scmcpld_probe_or_undo client a leds_table sysfs_files p s
            ≡ undo client (answered a, filed, set_up.2) =
          opened _ got (then_files_or_undo client a sysfs_files set_up)
          ∙ ap (then_files_or_undo client a sysfs_files) front_lem
          ∙ ap (undo client) (sym (ap (then_files client a sysfs_files) front_lem) ∙ filed_lem) in
        rw undone (undo_lem (answered a) filed p.mutexes set_up.2 refl)
