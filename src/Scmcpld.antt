-- ===== src/Scmcpld.antt =====
-- The LEDs of the front panel, in the SCM CPLD drivers of the platforms: kmods/icecube/
-- icecube_scmcpld_i2c.c and those of mp3, mp3n, w800, anacapa, tahansb, icetea and leh800b.
pub mod Probe
pub mod Panels
pub mod Colors
pub mod Outcome
pub mod Drivers
mod Tests
use fboss_bsp_kmods.Base.{
  ℕ, ◌^◌, ◌%◌, Bool, if◌then◌else◌, ◌==◌, bit_and, bit_or, List, [], ◌∷◌, Text,
}
use fboss_bsp_kmods.Bits.{u8, not_u32}
use fboss_bsp_kmods.Print.{codes}
use fboss_bsp_kmods.Kernel.{Io, pure, ◌>>=◌, Regmap}

abbrev pub ctl_led_red : ℕ
ctl_led_red = 6

abbrev pub ctl_led_grn : ℕ
ctl_led_grn = 5

abbrev pub ctl_led_amber : ℕ
ctl_led_amber = 4

abbrev pub ctl_led_blue : ℕ
ctl_led_blue = 3

abbrev pub ctl_led_off : ℕ
ctl_led_off = 7

-- `led_color_info`.
pub record LedColor : Type 0 where
  pub reg_val : ℕ
  pub color : Text

abbrev pub led_color_info : List LedColor
led_color_info =
    record { reg_val = ctl_led_blue; color = codes "blue" }
    ∷ record { reg_val = ctl_led_grn; color = codes "green" }
    ∷ record { reg_val = ctl_led_red; color = codes "red" }
    ∷ record { reg_val = ctl_led_amber; color = codes "amber" }
    ∷ []

-- `struct fbscm_leds_data`, less the name.
pub record LedsData : Type 0 where
  pub reg_addr : ℕ
  pub reg_val : ℕ
  pub bitsmask : ℕ

-- The register that `brightness_set` makes of the one it read.
unfoldable pub recolored : LedsData → (value ret : ℕ) → ℕ
recolored d value ret =
    if value == 1
    then u8 (bit_or (bit_and ret (not_u32 d.bitsmask)) d.reg_val)
    else if bit_and ret d.bitsmask == d.reg_val
    then u8 (bit_or (bit_and ret (not_u32 d.bitsmask)) ctl_led_off)
    else u8 ret

module _ {S : Type 0} (client : Regmap S) (ldata : LedsData) where
  -- True for `LED_ON`; an error code is returned as it is.
  unfoldable pub brightness_get : Io S Bool
  brightness_get = do
    ret ← client.read ldata.reg_addr
    pure (u8 (bit_and ret ldata.bitsmask) == ldata.reg_val)

  unfoldable pub brightness_set : ℕ → Io S (Unit {0})
  brightness_set value = do
    ret ← client.read ldata.reg_addr
    client.write ldata.reg_addr (recolored ldata value ret)
