-- ===== src/PortLed/Default.antt =====
-- The LEDs that a probe registers, and the colour that it leaves on.
use mathlib.Core.List.{append_assoc, append-nil}
use fboss_bsp_kmods.Base.{
  ℕ, suc, ◌+◌, ◌*◌, ◌/◌, ◌^◌, ◌<◌, ◌≡◌, arith, refl, sym, ap, ◌∙◌, Option, none, some, Option-cases,
  inl, inr, List, [], ◌∷◌, ◌++◌, map, Text, text_eq, ℤ, pos,
}
use fboss_bsp_kmods.Mmio.{Mmio}
use fboss_bsp_kmods.Mmio.Kept.{IsKept}
use fboss_bsp_kmods.PortLed.{led_on_mask, pled_colors, turned_on}
use fboss_bsp_kmods.PortLed.Colors.{turned_on_lem}
use fboss_bsp_kmods.PortLed.Probe.{World, Answers, led_name, port_led_init, init_leds}
use fboss_bsp_kmods.PortLed.Probe.{port_led_probe}

abbrev add_leds : World → List Text → World
add_leds w names = record w { leds = w.leds ++ names }

led_on_mask_lt : (color : Text) (mask : ℕ) → led_on_mask color ≡ some mask → mask < 32
unfolding led_on_mask
led_on_mask_lt color mask h = ground arith

-- The register after colours were turned on, one after the other.
abbrev recolored : Option ℕ → ℕ → ℕ
recolored none v = v
recolored (some mask) v = v / 32 * 32 + mask

abbrev after_colors : List Text → ℕ → ℕ
after_colors [] v = v
after_colors (c ∷ cs) v = after_colors cs (recolored (led_on_mask c) v)

module _ {S : Type 0} (io : Mmio S) (csr : ℕ) (held : S → ℕ) (kept : IsKept io csr held)
    (a : Answers) where
  init_ok :
      (port : ℕ) (idx : ℤ) (color : Text) (w : World) (s : S)
      → held s < 2 ^ 32
      → (port_led_init io csr a port idx color w s).0 ≡ none
      → let (ret, w', s') = port_led_init io csr a port idx color w s in
        (w' ≡ add_leds w (led_name port idx color ∷ []))
        × (held s' ≡ recolored (led_on_mask color) (held s))
        × (held s' < 2 ^ 32)
  unfolding port_led_init
  init_ok port idx color w s small h = elim (Option-cases (led_on_mask color)) [
    | inl unknown ↦ absurd (ground (arith, unknown, h))
    | inr (mask, known) ↦
        let (val, s') = io.readl csr s in
        let short = led_on_mask_lt color mask known in
        let new : held (io.writel csr (turned_on mask val) s') ≡ held s / 32 * 32 + mask =
          kept.write_own s' (turned_on mask val)
          ∙ ap (turned_on mask) (kept.read_own s)
          ∙ turned_on_lem mask (held s) small short in
        let name = led_name port idx color in
        elim (Option-cases (a.register_led name)) [
          | inl passed ↦ (
            ground (arith, known, passed),
            ground (arith, known, passed, new),
            ground (arith, known, passed, new),
          )
          | inr (e, failed) ↦ absurd (ground (arith, known, failed, h))
        ]
  ]

  init_leds_ok :
      (port : ℕ) (idx : ℤ) (colors : List Text) (w : World) (s : S)
      → held s < 2 ^ 32
      → (init_leds io csr a port idx colors w s).0 ≡ none
      → let (ret, w', s') = init_leds io csr a port idx colors w s in
        (w' ≡ add_leds w (map (led_name port idx) colors))
        × (held s' ≡ after_colors colors (held s))
  unfolding init_leds
  init_leds_ok port idx [] w s small h =
      (ap (λ l. record w { leds = l }) (sym (append-nil w.leds)), refl)
  init_leds_ok port idx (c ∷ cs) w s small h =
      let one = port_led_init io csr a port idx c w s in
      elim (Option-cases one.0) [
        | inl passed ↦
            let (added, new, short) = init_ok port idx c w s small passed in
            let (rest, last) =
              init_leds_ok port idx cs one.1 one.2 short (ground (arith, passed, h)) in
            let names = map (led_name port idx) cs in
            let joined =
              rest
              ∙ ap (λ (v : World). add_leds v names) added
              ∙ ap (λ l. record w { leds = l })
                  (append_assoc w.leds (led_name port idx c ∷ []) names) in
            (
              ground (arith, passed, joined),
              ground (arith, passed, last ∙ ap (after_colors cs) new),
            )
        | inr (e, failed) ↦ absurd (ground (arith, failed, h))
      ]

  -- On a register that keeps what is written, a probe for a positive port number that succeeds
  -- registers the LEDs amber, blue and green of the port under their names, adds one mutex, and
  -- leaves the LED steadily green with the bits above it as they were.
  pub port_led_probe_ok :
      (n : ℕ) (idx : ℤ) (w : World) (s : S)
      → held s < 2 ^ 32
      → (port_led_probe io csr a (record { port_num = pos (suc n); led_idx = idx }) w s).0 ≡ none
      → let (ret, w', s') =
          port_led_probe io csr a (record { port_num = pos (suc n); led_idx = idx }) w s in
        (w' ≡ record w {
          mutexes = w.mutexes + 1;
          leds = w.leds ++ map (led_name (suc n) idx) pled_colors;
        })
        × (held s' ≡ held s / 32 * 32 + 0b11101)
  unfolding port_led_probe led_on_mask text_eq
  port_led_probe_ok n idx w s small h =
      let begun = record w { mutexes = w.mutexes + 1 } in
      elim (Option-cases (init_leds io csr a (suc n) idx pled_colors begun s).0) [
        | inl passed ↦
            let (added, last) = init_leds_ok (suc n) idx pled_colors begun s small passed in
            let green : after_colors pled_colors (held s) ≡ held s / 32 * 32 + 0b11101 =
              omega arith in
            (ground (arith, passed, h, added), ground (arith, passed, h, last ∙ green))
        | inr (e, failed) ↦ absurd (ground (arith, failed, h))
      ]
