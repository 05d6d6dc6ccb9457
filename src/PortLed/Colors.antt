-- ===== src/PortLed/Colors.antt =====
-- Which colour of a port shows after colours were turned on and off.
use fboss_bsp_kmods.Base.{
  ℕ, zero, suc, ◌+◌, ◌*◌, ◌/◌, ◌%◌, ◌^◌, ◌<◌, ◌≡◌, ◌≢◌, arith, refl, sym, ap, ◌∙◌, false, ◌==◌,
  if◌then◌else◌,
}
use fboss_bsp_kmods.Bits.{bit, not_u32}
use fboss_bsp_kmods.Bits.Laws.{bit_shr, eq_of_bits, bit-bit_and}
use fboss_bsp_kmods.Field.{Fits, merge}
use fboss_bsp_kmods.Field.Laws.{bit-merge, merge_lt, field_of-merge}
use fboss_bsp_kmods.Mmio.{Mmio}
use fboss_bsp_kmods.Mmio.Kept.{IsKept}
use fboss_bsp_kmods.PortLed.{PortLedDev, port_led_on_mask, turned_off, turned_on}
use fboss_bsp_kmods.PortLed.{brightness_get, brightness_set}

control : Fits 32 0 5
control = omega arith

turned_on-merge : (mask val : ℕ) → turned_on mask val ≡ merge val 31 mask
unfolding turned_on merge
turned_on-merge mask val = refl

-- Turning a colour on sets the five bits of the LED and keeps the rest.
pub turned_on_lem :
    (mask val : ℕ) → val < 2 ^ 32 → mask < 32 → turned_on mask val ≡ val / 32 * 32 + mask
turned_on_lem mask val h p =
    let plain : mask * 2 ^ 0 ≡ mask = omega arith in
    let r = merge val 31 (mask * 2 ^ 0) in
    let low : r / 2 ^ 0 % 2 ^ 5 ≡ mask = field_of-merge control val mask h p in
    let small : r < 2 ^ 32 = merge_lt control val mask h p in
    let high : r / 2 ^ 5 ≡ val / 2 ^ 5 =
      eq_of_bits 32 (r / 2 ^ 5) (val / 2 ^ 5) (omega arith) (omega arith) (λ k q.
        ground (arith, bit_shr 5 r k, bit_shr 5 val k, bit-merge control val mask (5 + k) h p)) in
    turned_on-merge mask val ∙ ap (merge val 31) (sym plain) ∙ omega (arith, low, high)

-- The mask of a colour profile.
masks : (p : ℕ) → p < 8 → port_led_on_mask p ≡ p * 4 + 1
masks zero h = refl
masks (suc zero) h = refl
masks (suc (suc zero)) h = refl
masks (suc (suc (suc zero))) h = refl
masks (suc (suc (suc (suc zero)))) h = refl
masks (suc (suc (suc (suc (suc zero))))) h = refl
masks (suc (suc (suc (suc (suc (suc zero)))))) h = refl
masks (suc (suc (suc (suc (suc (suc (suc zero))))))) h = refl
masks (suc (suc (suc (suc (suc (suc (suc (suc p)))))))) h = absurd (omega arith)

-- No bit that a colour needs is left once another colour is turned off.
turned_off_even : (p val : ℕ) → p < 8 → turned_off (port_led_on_mask p) val % 2 ≡ 0
unfolding bit
turned_off_even p val h =
    let e = masks p h in
    let low = bit-bit_and 0 val (not_u32 (port_led_on_mask p)) in omega (arith, e, low)

module _ {S : Type 0} (io : Mmio S) (a : ℕ) (held : S → ℕ) (kept : IsKept io a held) where
  -- The LED of a colour profile of the port.
  abbrev pub led : ℕ → PortLedDev
  led profile = record { mask = port_led_on_mask profile; mmio_csr = a }

  set_on :
      (p value : ℕ) (s : S)
      → p < 8
      → value ≢ 0
      → held s < 2 ^ 32
      → held (brightness_set io (led p) value s) ≡ held s / 32 * 32 + (p * 4 + 1)
  unfolding brightness_set
  set_on p value s h ne small =
      let (val, s') = io.readl a s in
      let own : val ≡ held s = kept.read_own s in
      let mask = port_led_on_mask p in
      let new = turned_on_lem mask (held s) small (omega (arith, masks p h)) in
      ground
        (arith, ne, kept.write_own s' (turned_on mask val), ap (turned_on mask) own, new, masks p h)

  set_off :
      (p : ℕ) (s : S)
      → held (brightness_set io (led p) 0 s) ≡ turned_off (port_led_on_mask p) (held s)
  unfolding brightness_set
  set_off p s =
      let (val, s') = io.readl a s in
      let mask = port_led_on_mask p in
      kept.write_own s' (turned_off mask val) ∙ ap (turned_off mask) (kept.read_own s)

  -- On a register that keeps what is written and whose bits above the five of the LED are clear,
  -- after the brightness of one colour profile was set, another or the same reads as on exactly
  -- if it is that profile and the brightness was not 0.
  pub brightness_get-brightness_set :
      (p q value : ℕ) (s : S)
      → p < 8
      → q < 8
      → held s < 32
      → (brightness_get io (led q) (brightness_set io (led p) value s)).0
        ≡ (if value == 0 then false else p == q)
  unfolding brightness_get
  brightness_get-brightness_set p q zero s h h' small =
      let even = turned_off_even p (held s) h in
      ground (arith, kept.read_own (brightness_set io (led p) 0 s), set_off p s, masks q h', even)
  brightness_get-brightness_set p q (suc n) s h h' small = ground (
    arith,
    kept.read_own (brightness_set io (led p) (suc n) s),
    set_on p (suc n) s h (omega arith) (omega arith),
    masks q h',
  )
