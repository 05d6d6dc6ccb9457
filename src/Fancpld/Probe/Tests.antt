-- ===== src/Fancpld/Probe/Tests.antt =====
-- Concrete probes of the fan CPLD drivers, and the theorems at them.
use fboss_bsp_kmods.Base.{◌+◌, ◌≡◌, refl, true, none, some, []}
use fboss_bsp_kmods.Kernel.Memory.{Memory, memory, all_hold}
use fboss_bsp_kmods.Fancpld.Drivers.Mp3
use fboss_bsp_kmods.Fancpld.Probe.{
  World, Answers, fancpld_i2c_probe, fancpld_i2c_probe_leds, pdbcpld_i2c_probe,
}
use fboss_bsp_kmods.Fancpld.Probe.{register_colors, register_trays, fan_leds_init, fan_wdt_init}
use fboss_bsp_kmods.Fancpld.Probe.Register.{
  tray_leds, mutex_of, fancpld_i2c_probe_leds_ok, probes_mutexes,
}

abbrev nothing : World
nothing = record { mutexes = 0; hwmon_devs = 0; watchdogs = 0; leds = []; tables = 0 }

abbrev all_well : Answers
all_well = record {
  got_data = true;
  register_hwmon = none;
  got_watchdog = true;
  register_watchdog = none;
  init_table = none;
  register_led = λ led. none;
}

abbrev hardware : Memory
hardware = all_hold 0

probe_succeeds :
    (fancpld_i2c_probe_leds (memory 8) all_well 8 Mp3.led_color_info nothing hardware).0 ≡ none
unfolding fancpld_i2c_probe_leds fan_wdt_init fan_leds_init register_trays register_colors
probe_succeeds = refl

fancpld_i2c_probe_leds_ok_example :
    (fancpld_i2c_probe_leds (memory 8) all_well 8 Mp3.led_color_info nothing hardware).1
    ≡ record nothing {
      mutexes = 1;
      hwmon_devs = 1;
      watchdogs = 1;
      leds = tray_leds Mp3.led_color_info 1 8;
    }
fancpld_i2c_probe_leds_ok_example =
    fancpld_i2c_probe_leds_ok (memory 8) all_well Mp3.led_color_info 8 nothing hardware
      probe_succeeds

abbrev no_watchdog : Answers
no_watchdog = record all_well { register_watchdog = some 16 }

probes_mutexes_example :
    (let (ret, w', s') = fancpld_i2c_probe (memory 8) no_watchdog nothing hardware in
      w'.mutexes ≡ 0 + mutex_of ret)
    × (let (ret, w', s') =
          fancpld_i2c_probe_leds (memory 8) no_watchdog 8 Mp3.led_color_info nothing hardware in
        w'.mutexes ≡ 0 + mutex_of ret)
    × (let (ret, w', s') =
          pdbcpld_i2c_probe (memory 8) no_watchdog 8 Mp3.led_color_info nothing hardware in
        w'.mutexes ≡ 0 + mutex_of ret)
probes_mutexes_example = probes_mutexes (memory 8) no_watchdog Mp3.led_color_info 8 nothing hardware
