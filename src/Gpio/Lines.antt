-- ===== src/Gpio/Lines.antt =====
-- What driving a line leaves in its register, and in those of the others.
use fboss_bsp_kmods.Base.{
  ℕ, ◌-◌, ◌<◌, ◌≡◌, ◌≢◌, arith, ap, ◌∙◌, ◌==◌, if◌then◌else◌, bit_and, bit_or, not, ◌⊎◌, inl, inr,
}
use fboss_bsp_kmods.Bits.{bit, not_u32}
use fboss_bsp_kmods.Bits.Laws.{bit-bit_and, bit-bit_or, bit_not, bit_ones, bit_shl, bit_lt}
use fboss_bsp_kmods.Kernel.{update}
use fboss_bsp_kmods.Mmio.{Mmio}
use fboss_bsp_kmods.Mmio.Window.{IsWindow, IsReadable}
use fboss_bsp_kmods.Gpio.{gpio_line_csr, line_direction_in, put_level}
use fboss_bsp_kmods.Gpio.{fbiob_gpio_get_direction, fbiob_gpio_direction_output}

bit-output : (k : ℕ) → bit 2 k ≡ (if k == 1 then 1 else 0)
bit-output k = ground (arith, bit_shl 1 1 k, bit_ones 1 (k - 1))

bit-tristate : (k : ℕ) → bit 1 k ≡ (if k == 0 then 1 else 0)
bit-tristate k = ground (arith, bit_ones 1 k)

-- A word joined with the bit is not 0.
joined : (val : ℕ) → bit_or val 1 ≢ 0
unfolding bit
joined val e = absurd (omega (arith, e, bit-bit_or 0 val 1))

-- The word of a line that is driven.
driven :
    (value val k : ℕ)
    → k < 32
    → bit (put_level value (bit_and val (not_u32 1))) k
      ≡ (if k == 0 then 0 else if k == 1 then (if value == 0 then 0 else 1) else bit val k)
driven value val k h =
    let low = bit_and val (not_u32 1) in
    ground (
      arith,
      bit-bit_and k low (not_u32 2),
      bit-bit_or k low 2,
      bit-bit_and k val (not_u32 1),
      bit_not 32 1 k (omega arith) h,
      bit_not 32 2 k (omega arith) h,
      bit-output k,
      bit-tristate k,
      bit_lt val k,
    )

same_line : (l l' : ℕ) → (l ≡ l') ⊎ (l ≢ l')
same_line l l' = ground arith

module _ {S : Type 0} {io : Mmio S} {held : S → ℕ → ℕ} (readable : IsReadable io held)
    (window : IsWindow io 0 1024 (λ s. Unit {0}) held) where
  -- The direction that is reported is always IN.
  direction_lem : (l : ℕ) (s : S) → (fbiob_gpio_get_direction io l s).0 ≡ line_direction_in
  unfolding fbiob_gpio_get_direction
  direction_lem l s = ground (arith, joined (io.readl (gpio_line_csr l) s).0)

  output_held :
      (l value : ℕ) (s : S) (b : ℕ)
      → l < 256
      → held (fbiob_gpio_direction_output io l value s) b
        ≡ update
            (held s)
            (gpio_line_csr l)
            (put_level value (bit_and (held s (gpio_line_csr l)) (not_u32 1)))
            b
  unfolding fbiob_gpio_direction_output fbiob_gpio_get_direction
  output_held l value s b h =
      let a = gpio_line_csr l in
      let s' = (io.readl a s).1 in
      let (val, s'') = io.readl a s' in
      let word = put_level value (bit_and val (not_u32 1)) in
      let own : val ≡ held s a = readable.read_held s' a ∙ readable.read_kept s a a in
      ground (
        arith,
        direction_lem l s,
        window.write_held s'' a word b (omega arith) (omega arith) tt,
        ap (λ (v : ℕ). put_level value (bit_and v (not_u32 1))) own,
        readable.read_kept s' a b,
        readable.read_kept s a b,
      )

  -- On 256 registers that keep what is written, driving a line clears its tristate bit, puts the
  -- level into its output bit, and changes no other of the 32 bits and no other line, and the
  -- direction that is then reported for the line is IN all the same.
  pub fbiob_gpio_direction_output_line :
      (l l' value k : ℕ) (s : S)
      → l < 256
      → l' < 256
      → k < 32
      → let t = fbiob_gpio_direction_output io l value s in
        (bit (held t (gpio_line_csr l')) k ≡ (
          if not (l == l')
          then bit (held s (gpio_line_csr l')) k
          else if k == 0
          then 0
          else if k == 1
          then (if value == 0 then 0 else 1)
          else bit (held s (gpio_line_csr l')) k))
        × ((fbiob_gpio_get_direction io l t).0 ≡ line_direction_in)
  fbiob_gpio_direction_output_line l l' value k s h h' q =
      let t = fbiob_gpio_direction_output io l value s in
      let held_now = output_held l value s (gpio_line_csr l') h in
      let now = ap (λ (v : ℕ). bit v k) held_now in
      let word = driven value (held s (gpio_line_csr l)) k q in
      (
        elim (same_line l l') [
          | inl e ↦ ground (arith, now, word, e, ap (λ (n : ℕ). bit (held s (gpio_line_csr n)) k) e)
          | inr ne ↦ ground (arith, now, ne)
        ],
        direction_lem l t,
      )
