-- ===== src/Scmcpld/Probe.antt =====
-- Setting up the LEDs of the front panel, and the table of register fields after them.
use fboss_bsp_kmods.Base.{ℕ, ◌+◌, ◌-◌, Bool, not, Option, none, some, List, [], ◌∷◌, ◌++◌}
use fboss_bsp_kmods.Base.{if◌then◌else◌, Text, bit_and, bit_or}
use fboss_bsp_kmods.Bits.{u8, not_u32}
use fboss_bsp_kmods.Print.{codes}
use fboss_bsp_kmods.Kernel.{Ret, ok, err, undefined, Regmap}
use fboss_bsp_kmods.Kernel.Errno.{enomem}
use fboss_bsp_kmods.Regbit.{Config}
use fboss_bsp_kmods.Regbit.Setup
use fboss_bsp_kmods.Regbit.Setup.{regbit_sysfs_init_i2c}
use fboss_bsp_kmods.Scmcpld.{LedColor, LedsData, led_color_info, ctl_led_blue}

-- `struct fbscm_leds_info`.
pub record LedsInfo : Type 0 where
  pub name : Text
  pub reg_addr : ℕ
  pub bitsmask : ℕ

pub record Led : Type 0 where
  pub name : Text
  pub ldata : LedsData

-- What stands in the kernel because of a driver: its mutex, its LEDs, and its files. The LEDs and
-- the files are released with the device.
pub record Panel : Type 0 where
  pub mutexes : ℕ
  pub leds : List Led
  pub files : Setup.World

-- What the kernel answers. `regmap` is what setting up the register map returns, `files` what
-- creating the files meets.
pub record Answers : Type 0 where
  pub got_data : Bool
  pub register_led : Text → Option ℕ
  pub regmap : Option ℕ
  pub files : Setup.Answers

abbrev pub led_of : LedsInfo → LedColor → Led
led_of info c = record {
  name = info.name ++ (codes ":" ++ (c.color ++ codes ":status"));
  ldata = record { reg_addr = info.reg_addr; reg_val = c.reg_val; bitsmask = info.bitsmask };
}

-- The inner loop of `front_panel_leds_init`. A failure to set up a trigger is only logged.
unfoldable pub init_colors : Answers → LedsInfo → List LedColor → Panel → Ret (Unit {0}) × Panel
init_colors a info [] p = (ok tt, p)
init_colors a info (c ∷ cs) p =
    let rest = init_colors a info cs (record p { leds = p.leds ++ (led_of info c ∷ []) }) in
    elim (a.register_led (led_of info c).name) [ some e ↦ (err e, p) | none ↦ rest ]

module _ {S : Type 0} (client : Regmap S) where
  -- The default colour of a LED: blue. A failure to write it is only logged.
  abbrev pub default_blue : LedsInfo → ℕ → S → S
  default_blue info ret s =
      (client.write info.reg_addr (u8 (bit_or (bit_and ret (not_u32 info.bitsmask)) ctl_led_blue))
        s).1

  -- One round of the outer loop from the read of the register on.
  abbrev pub init_led : Answers → LedsInfo → Panel → Ret ℕ × S → Ret (Unit {0}) × Panel × S
  init_led a info p (ok ret, s) =
      let (failed, p') = init_colors a info led_color_info p in
      (failed, p', default_blue info ret s)
  init_led a info p (err e, s) = (err e, p, s)
  init_led a info p (undefined, s) = (undefined, p, s)

  -- The outer loop.
  unfoldable pub front_panel_leds_init :
      Answers → List LedsInfo → Panel → S → Ret (Unit {0}) × Panel × S
  front_panel_leds_init a [] p s = (ok tt, p, s)
  front_panel_leds_init a (info ∷ infos) p s =
      let (failed, p', s') = init_led a info p (client.read info.reg_addr s) in
      let rest = front_panel_leds_init a infos p' s' in
      elim failed [ ok _ ↦ rest | err e ↦ (err e, p', s') | undefined ↦ (undefined, p', s') ]

  abbrev pub destroy_mutex : Panel → Panel
  destroy_mutex p = record p { mutexes = p.mutexes - 1 }

  -- The end of a probe: the table of register fields, unless the LEDs failed.
  abbrev pub then_files :
      Answers → List Config → Ret (Unit {0}) × Panel × S → Ret (Unit {0}) × Panel × S
  then_files a sysfs_files (err e, p, s) = (err e, destroy_mutex p, s)
  then_files a sysfs_files (undefined, p, s) = (undefined, p, s)
  then_files a sysfs_files (ok _, p, s) =
      let (ret, files) = regbit_sysfs_init_i2c a.regmap a.files sysfs_files p.files in
      (ret, record p { files = files }, s)

  unfoldable pub scmcpld_probe :
      Answers → List LedsInfo → List Config → Panel → S → Ret (Unit {0}) × Panel × S
  scmcpld_probe a leds_table sysfs_files p s =
      if not a.got_data
      then (err enomem, p, s)
      else then_files a sysfs_files
          (front_panel_leds_init a leds_table (record p { mutexes = p.mutexes + 1 }) s)

  -- The probe of anacapa and leh800b, which takes a failure of the table back.
  abbrev pub undo : Ret (Unit {0}) × Panel × S → Ret (Unit {0}) × Panel × S
  undo (ok x, p, s) = (ok x, p, s)
  undo (err e, p, s) = (err e, destroy_mutex p, s)
  undo (undefined, p, s) = (undefined, p, s)

  abbrev pub then_files_or_undo :
      Answers → List Config → Ret (Unit {0}) × Panel × S → Ret (Unit {0}) × Panel × S
  then_files_or_undo a sysfs_files (err e, p, s) = (err e, destroy_mutex p, s)
  then_files_or_undo a sysfs_files (undefined, p, s) = (undefined, p, s)
  then_files_or_undo a sysfs_files (ok x, p, s) = undo (then_files a sysfs_files (ok x, p, s))

  unfoldable pub scmcpld_probe_or_undo :
      Answers → List LedsInfo → List Config → Panel → S → Ret (Unit {0}) × Panel × S
  scmcpld_probe_or_undo a leds_table sysfs_files p s =
      if not a.got_data
      then (err enomem, p, s)
      else then_files_or_undo a sysfs_files
          (front_panel_leds_init a leds_table (record p { mutexes = p.mutexes + 1 }) s)

-- What a driver does itself when a device goes away; turning the triggers off is not modelled.
pub scmcpld_remove : Panel → Panel
scmcpld_remove p = record p { mutexes = p.mutexes - 1 }
