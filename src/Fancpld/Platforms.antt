-- ===== src/Fancpld/Platforms.antt =====
-- The fan CPLD drivers of the platforms, and that the generic driver does what each of them does.
use fboss_bsp_kmods.Base.{ℕ, ◌≡◌, refl, ℤ, List, [], ◌∷◌, All}
use fboss_bsp_kmods.Kernel.{Regmap, Ret}
use fboss_bsp_kmods.Fan
use fboss_bsp_kmods.Fan.{
  FanConfig, Sensor, Attr, fbfancpld_is_visible, fbfancpld_read, fbfancpld_write,
}
use fboss_bsp_kmods.Fan.Tach.{num_tach}
use fboss_bsp_kmods.Fancpld
use fboss_bsp_kmods.Fancpld.{fan_wdt_ops, extra_groups}
use fboss_bsp_kmods.Fancpld.{Macros, ChipInfo, WatchdogOps, HwmonOps, ExtraGroups}
use fboss_bsp_kmods.Fancpld.{mcbfan_is_visible, mcbfan_read, mcbfan_write}
use fboss_bsp_kmods.Fancpld.Drivers.Mp3
use fboss_bsp_kmods.Fancpld.Drivers.Mp3n
use fboss_bsp_kmods.Fancpld.Drivers.W800
use fboss_bsp_kmods.Fancpld.Drivers.Anacapa
use fboss_bsp_kmods.Fancpld.Drivers.Icecube
use fboss_bsp_kmods.Fancpld.Drivers.Tahansb
use fboss_bsp_kmods.Fancpld.Drivers.Icetea
use fboss_bsp_kmods.Fancpld.Drivers.Leh800b
use fboss_bsp_kmods.Fancpld.Equivalence.{
  Fits, read_same, write_same, boost_show_same, boost_store_same, visible_same,
}
use fboss_bsp_kmods.Fancpld.Configurations.{
  fans_from, mp3_config, mp3n_config, w800_config, anacapa_config, icecube_config, tahansb_config,
  icetea_config, leh800b_config,
}
use fboss_bsp_kmods.Fancpld.Configurations.{
  mp3-Fits, mp3n-Fits, w800-Fits, anacapa-Fits, icecube-Fits, tahansb-Fits, icetea-Fits,
  leh800b-Fits,
}

-- A driver of a platform: its watchdog, its hwmon device, its files and what it tells hwmon.
pub record PlatformDriver (S : Type 0) : Type 0 where
  pub wdt : WatchdogOps S
  pub hwmon : HwmonOps S
  pub groups : ExtraGroups S
  pub info : ChipInfo

module _ {S : Type 0} (client : Regmap S) where
  -- The generic driver does what a driver does: hwmon's questions, reads and writes, the files, the
  -- watchdog, and the channels and fans that there are.
  abbrev pub Agrees : FanConfig × PlatformDriver S → Type 0
  Agrees (c, d) =
      ((t : Sensor) (a : Attr) → d.hwmon.is_visible t a ≡ fbfancpld_is_visible t a)
      × ((t : Sensor) (a : Attr) (channel : ℕ) (s : S)
          → d.hwmon.read t a channel s ≡ fbfancpld_read client c t a channel s)
      × ((t : Sensor) (a : Attr) (channel : ℕ) (val : ℤ) (s : S)
          → d.hwmon.write t a channel val s ≡ fbfancpld_write client c t a channel val s)
      × ((fn : ℕ) (s : S) → d.groups.present_show fn s ≡ Fan.fan_present_show client c fn s)
      × ((s : S) → d.groups.boost_show s ≡ Fan.fan_boost_pwm_show client c s)
      × ((parsed : Ret ℤ) (count : ℕ) (s : S)
          → d.groups.boost_store parsed count s ≡ Fan.fan_boost_pwm_store client c parsed count s)
      × ((s : S) → d.wdt.start s ≡ Fan.fan_wdt_start client s)
      × ((s : S) → d.wdt.stop s ≡ Fan.fan_wdt_stop client s)
      × ((s : S) → d.wdt.ping s ≡ Fan.fan_wdt_ping client s)
      × ((s : S) → d.wdt.get_timeleft s ≡ Fan.fan_wdt_get_timeleft client s)
      × ((timeout : ℕ) → (d.wdt.set_timeout timeout).0 ≡ (Fan.fan_wdt_set_timeout client timeout).0)
      × ((timeout : ℕ) (s : S)
          → (d.wdt.set_timeout timeout).1 s ≡ (Fan.fan_wdt_set_timeout client timeout).1 s)
      × (d.info.fan_channels ≡ num_tach c)
      × (d.info.pwm_channels ≡ c.num_fans)
      × (d.info.present ≡ fans_from 1 c.num_fans)

  -- The driver with the shared methods over some macros.
  abbrev driver_of : Macros → ChipInfo → PlatformDriver S
  driver_of m info = record {
    wdt = fan_wdt_ops client;
    hwmon = record {
      is_visible = mcbfan_is_visible;
      read = mcbfan_read client m;
      write = mcbfan_write client m;
    };
    groups = extra_groups client m;
    info = info;
  }

  methods_agree :
      (m : Macros) (c : FanConfig) (info : ChipInfo)
      → Fits m c
      → info.fan_channels ≡ num_tach c
      → info.pwm_channels ≡ c.num_fans
      → info.present ≡ fans_from 1 c.num_fans
      → Agrees (c, driver_of m info)
  unfolding fan_wdt_ops extra_groups Fancpld.fan_present_show Fan.fan_present_show
      Fancpld.fan_wdt_start Fan.fan_wdt_start Fancpld.fan_wdt_stop Fan.fan_wdt_stop
      Fancpld.fan_wdt_ping Fan.fan_wdt_ping Fancpld.fan_wdt_get_timeleft Fan.fan_wdt_get_timeleft
      Fancpld.fan_wdt_set_timeout Fan.fan_wdt_set_timeout
  methods_agree m c info fits tach pwm present = (
    visible_same,
    read_same client m c fits,
    write_same client m c fits,
    λ fn s. refl,
    boost_show_same client m c fits,
    boost_store_same client m c fits,
    λ s. refl,
    λ s. refl,
    λ s. refl,
    λ s. refl,
    λ timeout. refl,
    λ timeout s. refl,
    tach,
    pwm,
    present,
  )

  -- The drivers, each with the configuration that replaces it.
  abbrev pub platform_drivers : List (FanConfig × PlatformDriver S)
  platform_drivers =
      (
        mp3_config,
        record {
          wdt = Mp3.wdt_ops client;
          hwmon = Mp3.hwmon_ops client;
          groups = Mp3.groups client;
          info = Mp3.chip_info;
        },
      )
      ∷ (
        mp3n_config,
        record {
          wdt = Mp3n.wdt_ops client;
          hwmon = Mp3n.hwmon_ops client;
          groups = Mp3n.groups client;
          info = Mp3n.chip_info;
        },
      )
      ∷ (
        w800_config,
        record {
          wdt = W800.wdt_ops client;
          hwmon = W800.hwmon_ops client;
          groups = W800.groups client;
          info = W800.chip_info;
        },
      )
      ∷ (
        anacapa_config,
        record {
          wdt = Anacapa.wdt_ops client;
          hwmon = Anacapa.hwmon_ops client;
          groups = Anacapa.groups client;
          info = Anacapa.chip_info;
        },
      )
      ∷ (
        icecube_config,
        record {
          wdt = Icecube.wdt_ops client;
          hwmon = Icecube.hwmon_ops client;
          groups = Icecube.groups client;
          info = Icecube.chip_info;
        },
      )
      ∷ (
        tahansb_config,
        record {
          wdt = Tahansb.wdt_ops client;
          hwmon = Tahansb.hwmon_ops client;
          groups = Tahansb.groups client;
          info = Tahansb.chip_info;
        },
      )
      ∷ (
        icetea_config,
        record {
          wdt = Icetea.wdt_ops client;
          hwmon = Icetea.hwmon_ops client;
          groups = Icetea.groups client;
          info = Icetea.chip_info;
        },
      )
      ∷ (
        leh800b_config,
        record {
          wdt = Leh800b.wdt_ops client;
          hwmon = Leh800b.hwmon_ops client;
          groups = Leh800b.groups client;
          info = Leh800b.chip_info;
        },
      )
      ∷ []

  -- With the configuration given for it, the generic driver does what each of the eight drivers
  -- of the platforms does: the same visibility, reads and writes of hwmon, the same presence and
  -- boost files, the same watchdog, the same number of tachometers and PWMs, and a presence file
  -- for the same fans.
  pub platform_drivers-Agrees : All Agrees platform_drivers
  platform_drivers-Agrees = (
    methods_agree Mp3.macros mp3_config Mp3.chip_info mp3-Fits refl refl refl,
    (
      methods_agree Mp3n.macros mp3n_config Mp3n.chip_info mp3n-Fits refl refl refl,
      (
        methods_agree W800.macros w800_config W800.chip_info w800-Fits refl refl refl,
        (
          methods_agree Anacapa.macros anacapa_config Anacapa.chip_info anacapa-Fits refl refl refl,
          (
            methods_agree Icecube.macros icecube_config Icecube.chip_info icecube-Fits refl refl
                refl,
            (
              methods_agree Tahansb.macros tahansb_config Tahansb.chip_info tahansb-Fits refl refl
                  refl,
              (
                methods_agree Icetea.macros icetea_config Icetea.chip_info icetea-Fits refl refl
                    refl,
                (
                  methods_agree Leh800b.macros leh800b_config Leh800b.chip_info leh800b-Fits refl
                      refl refl,
                  tt,
                ),
              ),
            ),
          ),
        ),
      ),
    ),
  )
