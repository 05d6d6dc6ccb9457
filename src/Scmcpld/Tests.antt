-- ===== src/Scmcpld/Tests.antt =====
-- Concrete runs of the front panel of a platform, and the theorems at them.
use fboss_bsp_kmods.Base.{◌≡◌, arith, refl, true, none, some, []}
use fboss_bsp_kmods.Kernel.{ok, err, update}
use fboss_bsp_kmods.Kernel.Memory.{Memory, memory, content, memory-IsRegisterFile, all_hold}
use fboss_bsp_kmods.Scmcpld.{LedsData, recolored, brightness_get, brightness_set}
use fboss_bsp_kmods.Scmcpld.Probe.{Panel, Answers, init_colors, front_panel_leds_init}
use fboss_bsp_kmods.Scmcpld.Panels.{icecube_leds_table, icecube_scmcpld_probe}
use fboss_bsp_kmods.Scmcpld.Colors.{brightness_get-brightness_set_panel}
use fboss_bsp_kmods.Scmcpld.Outcome.{panel_leds}
use fboss_bsp_kmods.Scmcpld.Drivers.{icecube, scmcpld_probe_outcome}

abbrev blue : LedsData
blue = record { reg_addr = 0x41; reg_val = 3; bitsmask = 0b10111 }

abbrev amber : LedsData
amber = record { reg_addr = 0x41; reg_val = 4; bitsmask = 0b10111 }

-- Blue is on, with a bit beside the LED's set.
abbrev lit : Memory
lit = all_hold 0b01000011

blue_on : brightness_get (memory 8) blue lit ≡ (ok true, lit)
unfolding brightness_get
blue_on = refl

amber_off : brightness_set (memory 8) amber 0 lit ≡ (ok tt, update lit 0x41 0b01000011)
unfolding brightness_set recolored
amber_off = refl

blue_still_on :
    brightness_get (memory 8) blue (update lit 0x41 0b01000011)
    ≡ (ok true, update lit 0x41 0b01000011)
unfolding brightness_get
blue_still_on = refl

brightness_get-brightness_set_panel_example : true ≡ true
brightness_get-brightness_set_panel_example =
    brightness_get-brightness_set_panel (memory 8) (content 8) (memory-IsRegisterFile 8) amber blue
      0 true true lit lit (update lit 0x41 0b01000011) (update lit 0x41 0b01000011)
      (omega arith, omega arith, refl, refl) (omega arith, omega arith, refl, refl) refl refl
      blue_on amber_off blue_still_on

abbrev empty : Panel
empty = record {
  mutexes = 0;
  leds = [];
  files = record {
    handles = 0;
    attr_arrays = 0;
    entry_arrays = 0;
    locks = 0;
    group = none;
    action = none;
  };
}

-- The group of files is refused with EEXIST.
abbrev no_group : Answers
no_group = record {
  got_data = true;
  register_led = λ name. none;
  regmap = none;
  files = record {
    got_handle = true;
    got_attrs = true;
    got_entries = true;
    create_group = some 17;
    add_action = none;
  };
}

-- The driver of icecube keeps its mutex then.
scmcpld_probe_outcome_example :
    let (ret, p, s) = icecube_scmcpld_probe (memory 8) no_group empty lit in
    (ret ≡ err 17)
    × (p.leds ≡ panel_leds icecube_leds_table)
    × (p.files ≡ empty.files)
    × (p.mutexes ≡ 1)
unfolding front_panel_leds_init init_colors
scmcpld_probe_outcome_example =
    scmcpld_probe_outcome icecube (memory 8) no_group empty lit refl refl refl
