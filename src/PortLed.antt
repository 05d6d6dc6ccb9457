-- ===== src/PortLed.antt =====
-- kmods/fboss_iob_led_aux.c and fboss_iob_led_aux.h: the LED of a port, one register with a colour
-- profile, and a LED of the kernel for each colour that is exported.
pub mod Colors
pub mod Probe
pub mod Default
mod Tests
use fboss_bsp_kmods.Base.{ℕ, ◌*◌, ◌^◌, Bool, List, [], ◌∷◌, Option, none, some, Text, text_eq}
use fboss_bsp_kmods.Base.{◌==◌, if◌then◌else◌, bit_and, bit_or}
use fboss_bsp_kmods.Bits.{not_u32}
use fboss_bsp_kmods.Print.{codes}
use fboss_bsp_kmods.Mmio.{Mmio}

abbrev pub flash_ctrl : ℕ
flash_ctrl = 2 ^ 1

abbrev pub on_off_ctrl : ℕ
on_off_ctrl = 2 ^ 0

-- `PORT_LED_ON_MASK`, of a `color_profile` by its number.
abbrev pub port_led_on_mask : ℕ → ℕ
port_led_on_mask profile = bit_or (profile * 2 ^ 2) on_off_ctrl

abbrev pub mask_all : ℕ
mask_all = bit_or (bit_or (7 * 2 ^ 2) flash_ctrl) on_off_ctrl

-- The chain of `strcmp` in `port_led_init`, over `enum color_profile`.
unfoldable pub led_on_mask : Text → Option ℕ
led_on_mask color =
    if text_eq color (codes "white")
    then some (port_led_on_mask 0)
    else if text_eq color (codes "cyan")
    then some (port_led_on_mask 1)
    else if text_eq color (codes "blue")
    then some (port_led_on_mask 2)
    else if text_eq color (codes "pink")
    then some (port_led_on_mask 3)
    else if text_eq color (codes "red")
    then some (port_led_on_mask 4)
    else if text_eq color (codes "orange")
    then some (port_led_on_mask 5)
    else if text_eq color (codes "amber")
    then some (port_led_on_mask 6)
    else if text_eq color (codes "green")
    then some (port_led_on_mask 7)
    else none

abbrev pub pled_colors : List Text
pled_colors = codes "amber" ∷ codes "blue" ∷ codes "green" ∷ []

-- `struct port_led_dev`: its mask, and the address of the register of the port.
pub record PortLedDev : Type 0 where
  pub mask : ℕ
  pub mmio_csr : ℕ

-- What a brightness of 0, and any other, make of the register.
abbrev pub turned_off : (mask val : ℕ) → ℕ
turned_off mask val = bit_and val (not_u32 mask)

pub turned_on : (mask val : ℕ) → ℕ
turned_on mask val = bit_or (bit_and val (not_u32 mask_all)) mask

module _ {S : Type 0} (io : Mmio S) (ldev : PortLedDev) where
  -- True for `LED_ON`.
  unfoldable pub brightness_get : S → Bool × S
  brightness_get s = let (val, s') = io.readl ldev.mmio_csr s in (val == ldev.mask, s')

  unfoldable pub brightness_set : ℕ → S → S
  brightness_set value s =
      let (val, s') = io.readl ldev.mmio_csr s in
      if value == 0
      then io.writel ldev.mmio_csr (turned_off ldev.mask val) s'
      else io.writel ldev.mmio_csr (turned_on ldev.mask val) s'
