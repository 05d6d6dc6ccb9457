-- ===== src/Scmcpld/Colors.antt =====
-- What the LEDs of the front panel show after one of their colours was set.
use fboss_bsp_kmods.Base.{
  ℕ, ◌^◌, ◌<◌, ◌≡◌, arith, sym, ap, ◌∙◌, Bool, not, ◌&&◌, ◌==◌, if◌then◌else◌, bit_and, bit_or,
}
use fboss_bsp_kmods.Bits.{bit, u8, not_u32}
use fboss_bsp_kmods.Bits.Laws.{
  bit-bit_and, bit-bit_or, bit_not, bit_mod, bit_lt, eq_of_bits, bit_and_lt,
}
use fboss_bsp_kmods.Kernel.{ok, Regmap, IsRegisterFile, read_ok_inv}
use fboss_bsp_kmods.Scmcpld.{LedsData, recolored, ctl_led_off, brightness_get, brightness_set}

-- A value that lies inside a mask replaces what the mask covers.
replaced_lem :
    (r x mask : ℕ)
    → x < 256
    → mask < 256
    → bit_and x mask ≡ x
    → bit_and (u8 (bit_or (bit_and r (not_u32 mask)) x)) mask ≡ x
replaced_lem r x mask h m inside =
    let v = bit_or (bit_and r (not_u32 mask)) x in
    eq_of_bits 8 (bit_and (u8 v) mask) x (omega (arith, bit_and_lt 8 (u8 v) mask (omega arith)))
      (omega arith)
      (λ k q. ground (
        arith,
        bit-bit_and k (u8 v) mask,
        bit_mod 8 v k,
        bit-bit_or k (bit_and r (not_u32 mask)) x,
        bit-bit_and k r (not_u32 mask),
        bit_not 32 mask k (omega arith) (omega arith),
        bit_lt mask k,
        bit_lt r k,
        bit-bit_and k x mask,
        ap (λ (n : ℕ). bit n k) inside,
      ))

-- The value of a colour: inside the mask, as OFF is, and another than OFF.
abbrev pub IsColor : LedsData → Type 0
IsColor d =
    (d.bitsmask < 256)
    × (d.reg_val < 7)
    × (bit_and d.reg_val d.bitsmask ≡ d.reg_val)
    × (bit_and ctl_led_off d.bitsmask ≡ ctl_led_off)

abbrev pub shows : LedsData → ℕ → Bool
shows d r = bit_and r d.bitsmask == d.reg_val

shows-recolored :
    (c d : LedsData) (value r : ℕ)
    → IsColor c
    → IsColor d
    → c.bitsmask ≡ d.bitsmask
    → r < 256
    → shows d (recolored c value r)
      ≡ (if value == 1 then c.reg_val == d.reg_val else shows d r && not (c.reg_val == d.reg_val))
unfolding recolored
shows-recolored c d value r cc dc same small =
    let kept = bit_and r (not_u32 c.bitsmask) in
    let on = u8 (bit_or kept c.reg_val) in
    let off = u8 (bit_or kept ctl_led_off) in
    let whole : u8 r ≡ r = omega arith in
    ground (
      arith,
      replaced_lem r c.reg_val c.bitsmask (omega arith) cc.0 cc.2,
      replaced_lem r ctl_led_off c.bitsmask (omega arith) cc.0 cc.3,
      ap (bit_and on) same,
      ap (bit_and off) same,
      ap (bit_and r) same,
      ap (λ (n : ℕ). bit_and n d.bitsmask) whole,
    )

recolored_lt : (c : LedsData) (value r : ℕ) → recolored c value r < 2 ^ 8
unfolding recolored
recolored_lt c value r = ground arith

module _ {S : Type 0} (client : Regmap S) (reg : S → ℕ → ℕ)
    (file : IsRegisterFile client 8 reg) where
  get_lem :
      (d : LedsData) (b : Bool) (s t : S)
      → brightness_get client d s ≡ (ok b, t)
      → (b ≡ shows d (reg s d.reg_addr)) × ((a : ℕ) → reg t a ≡ reg s a)
  unfolding brightness_get
  get_lem d b s t h =
      let (v, read, same) = read_ok_inv file d.reg_addr _ s h in
      let r = reg s d.reg_addr in
      let whole : u8 (bit_and r d.bitsmask) ≡ bit_and r d.bitsmask =
        omega (arith, bit_and_lt 8 r d.bitsmask (file.reg_lt s d.reg_addr)) in
      (ground (arith, read, whole), λ a. ground (arith, read, same a))

  set_lem :
      (c : LedsData) (value : ℕ) (s t : S) (a : ℕ)
      → a ≡ c.reg_addr
      → brightness_set client c value s ≡ (ok tt, t)
      → reg t a ≡ recolored c value (reg s a)
  unfolding brightness_set
  set_lem c value s t a e h =
      let r = reg s c.reg_addr in
      let (w, put, same) = read_ok_inv file c.reg_addr _ s h in
      let written =
        file.write_ok w c.reg_addr (recolored c value r) t a (recolored_lt c value r) put in
      ground (arith, e, written, ap (λ (b : ℕ). recolored c value (reg s b)) e)

  -- On 8-bit registers that keep what is written, for two colours of one LED of a front panel,
  -- whose values lie inside its mask as OFF does and are not OFF: after the brightness of one was
  -- set, the other or the same reads as on if it is that colour where 1 was set, and where
  -- another brightness was set, if it read as on before and is another colour.
  pub brightness_get-brightness_set_panel :
      (c d : LedsData) (value : ℕ) (before now : Bool) (s s' t u : S)
      → IsColor c
      → IsColor d
      → c.bitsmask ≡ d.bitsmask
      → c.reg_addr ≡ d.reg_addr
      → brightness_get client d s ≡ (ok before, s')
      → brightness_set client c value s' ≡ (ok tt, t)
      → brightness_get client d t ≡ (ok now, u)
      → now
        ≡ (if value == 1 then c.reg_val == d.reg_val else before && not (c.reg_val == d.reg_val))
  unfolding brightness_get brightness_set
  brightness_get-brightness_set_panel c d value before now s s' t u cc dc mask addr h set_c h' =
      let (first, kept) = get_lem d before s s' h in
      let (now_shown, kept') = get_lem d now t u h' in
      let old = reg s d.reg_addr in
      let stored : reg t d.reg_addr ≡ recolored c value old =
        set_lem c value s' t d.reg_addr (sym addr) set_c
        ∙ ap (recolored c value) (kept d.reg_addr) in
      now_shown
      ∙ ap (shows d) stored
      ∙ shows-recolored c d value old cc dc mask (omega (arith, file.reg_lt s d.reg_addr))
      ∙ ap
          (λ (b : Bool).
            if value == 1 then c.reg_val == d.reg_val else b && not (c.reg_val == d.reg_val))
          (sym first)
