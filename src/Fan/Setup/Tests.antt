-- ===== src/Fan/Setup/Tests.antt =====
-- Concrete ioctls on the fan CPLD of kmods/fbfancpld_i2c.c, and the theorems at them.
use fboss_bsp_kmods.Base.{◌≤◌, ◌<◌, ◌≡◌, ◌≢◌, refl, true, false, none, some, [], ◌∷◌}
use fboss_bsp_kmods.Kernel.Memory.{Memory, memory, all_hold}
use fboss_bsp_kmods.Fan.Setup.{IoctlConfig, FanData, Answers, configure, other, config_of}
use fboss_bsp_kmods.Fan.Setup.{fbfancpld_validate_config, fbfancpld_ioctl_configure}
use fboss_bsp_kmods.Fan.Setup.{
  fbfancpld_cdev_ioctl, run_ioctls, fan_wdt_init, fbfancpld_apply_config,
}
use fboss_bsp_kmods.Fan.Setup.{configure_fresh}
use fboss_bsp_kmods.Fan.Setup.Once.{successes, fbfancpld_cdev_ioctl_configured}
use fboss_bsp_kmods.Fan.Setup.Once.{fbfancpld_ioctl_configure_ok, run_ioctls_once}

abbrev wanted : IoctlConfig
wanted = record {
  num_fans = 4;
  pwm_max = 63;
  speed_multiplier = 150;
  has_rear_tach = 1;
  has_leds = 0;
}

abbrev with_leds : IoctlConfig
with_leds = record wanted { has_leds = 1 }

abbrev fresh : FanData
fresh = record {
  configured = false;
  config = config_of wanted;
  hwmon_devs = 0;
  watchdogs = 0;
  leds = [];
  num_leds = 0;
}

abbrev all_well : Answers
all_well = record {
  register_hwmon = none;
  got_watchdog = true;
  register_watchdog = none;
  got_leds = true;
  register_led = λ led. none;
}

abbrev no_watchdog : Answers
no_watchdog = record all_well { register_watchdog = some 16 }

abbrev hardware : Memory
hardware = all_hold 0

wanted_passes : fbfancpld_validate_config wanted ≡ none
unfolding fbfancpld_validate_config
wanted_passes = refl

configure_succeeds :
    (fbfancpld_ioctl_configure (memory 8) all_well (some wanted) fresh hardware).0 ≡ none
unfolding fbfancpld_ioctl_configure fbfancpld_validate_config configure_fresh fbfancpld_apply_config
    fan_wdt_init
configure_succeeds = refl

fbfancpld_cdev_ioctl_configured_example :
    let d = record fresh { configured = true } in
    let (ret, d', s') =
      fbfancpld_cdev_ioctl (memory 8) (configure all_well (some wanted)) d hardware in
    (ret ≢ none) × (d' ≡ d) × (s' ≡ hardware)
fbfancpld_cdev_ioctl_configured_example =
    fbfancpld_cdev_ioctl_configured (memory 8) (configure all_well (some wanted))
      (record fresh { configured = true }) hardware refl

fbfancpld_ioctl_configure_ok_example :
    let d' = (fbfancpld_ioctl_configure (memory 8) all_well (some wanted) fresh hardware).1 in
    (false ≡ false)
    × (d'.configured ≡ true)
    × (d'.config ≡ config_of wanted)
    × (0 < 4)
    × (4 ≤ 8)
    × (0 < 63)
    × (63 ≤ 255)
    × (d'.hwmon_devs ≡ 1)
    × (d'.watchdogs ≡ 1)
fbfancpld_ioctl_configure_ok_example =
    fbfancpld_ioctl_configure_ok (memory 8) all_well wanted fresh hardware configure_succeeds

run_ioctls_once_example :
    successes
      (run_ioctls
        (memory 8)
        (other ∷ configure all_well (some wanted) ∷ configure all_well (some wanted) ∷ [])
        fresh
        hardware).0
    ≤ 1
run_ioctls_once_example =
    run_ioctls_once (memory 8)
      (other ∷ configure all_well (some wanted) ∷ configure all_well (some wanted) ∷ []) fresh
      hardware
