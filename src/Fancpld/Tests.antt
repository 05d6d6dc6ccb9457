-- ===== src/Fancpld/Tests.antt =====
-- Concrete runs of the fan CPLD drivers of the platforms, and the theorems at them.
use fboss_bsp_kmods.Base.{◌*◌, ◌≡◌, refl, All, pos}
use fboss_bsp_kmods.Kernel.{ok}
use fboss_bsp_kmods.Kernel.Memory.{memory}
use fboss_bsp_kmods.Fan.{hwmon_fan, fan_input}
use fboss_bsp_kmods.Fancpld.{mcbfan_read, mcbfan_fan_read, mcbfan_fan_input_read}
use fboss_bsp_kmods.Fancpld.Drivers.Anacapa
use fboss_bsp_kmods.Fancpld.Platforms.{Agrees, platform_drivers, platform_drivers-Agrees}

-- Channel 3 is the rear tachometer of the second fan.
rear_speed :
    Anacapa.hwmon_read (memory 8) hwmon_fan fan_input 3 (λ a. a) ≡ (ok (pos (0x41 * 300)), λ a. a)
unfolding mcbfan_read mcbfan_fan_read mcbfan_fan_input_read
rear_speed = refl

platform_drivers-Agrees_example : All (Agrees (memory 8)) (platform_drivers (memory 8))
platform_drivers-Agrees_example = platform_drivers-Agrees (memory 8)
