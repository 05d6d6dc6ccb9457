-- ===== src/Scmcpld/Drivers.antt =====
-- The SCM CPLD drivers of the eight platforms, kmods/*/*_scmcpld_i2c.c, and what the probe of each
-- leaves.
use fboss_bsp_kmods.Base.{◌+◌, ◌≡◌, refl, Bool, true, false, if◌then◌else◌, none, List, ◌++◌}
use fboss_bsp_kmods.Kernel.{Ret, ok, Regmap}
use fboss_bsp_kmods.Regbit.{Config}
use fboss_bsp_kmods.Regbit.Setup.Lifetime.{after}
use fboss_bsp_kmods.Scmcpld.Probe.{LedsInfo, Panel, Answers, front_panel_leds_init}
use fboss_bsp_kmods.Scmcpld.Panels
use fboss_bsp_kmods.Scmcpld.Outcome.{
  panel_leds, mutex_of, answered, scmcpld_probe-Ends, scmcpld_probe_or_undo-Ends,
}
use fboss_bsp_kmods.Tables.Mp3Scmcpld
use fboss_bsp_kmods.Tables.Mp3nScmcpld
use fboss_bsp_kmods.Tables.W800Scmcpld
use fboss_bsp_kmods.Tables.AnacapaScmcpld
use fboss_bsp_kmods.Tables.IcecubeScmcpld
use fboss_bsp_kmods.Tables.TahansbScmcpld
use fboss_bsp_kmods.Tables.IceteaScmcpld
use fboss_bsp_kmods.Tables.Leh800bScmcpld

pub data Platform : Type 0 where
  mp3 mp3n w800 anacapa icecube tahansb icetea leh800b : Platform

abbrev pub leds_table : Platform → List LedsInfo
leds_table mp3 = Panels.mp3_leds_table
leds_table mp3n = Panels.mp3n_leds_table
leds_table w800 = Panels.w800_leds_table
leds_table anacapa = Panels.anacapa_leds_table
leds_table icecube = Panels.icecube_leds_table
leds_table tahansb = Panels.tahansb_leds_table
leds_table icetea = Panels.icetea_leds_table
leds_table leh800b = Panels.leh800b_leds_table

abbrev pub sysfs_files : Platform → List Config
sysfs_files mp3 = Mp3Scmcpld.sysfs_files
sysfs_files mp3n = Mp3nScmcpld.sysfs_files
sysfs_files w800 = W800Scmcpld.sysfs_files
sysfs_files anacapa = AnacapaScmcpld.sysfs_files
sysfs_files icecube = IcecubeScmcpld.sysfs_files
sysfs_files tahansb = TahansbScmcpld.sysfs_files
sysfs_files icetea = IceteaScmcpld.sysfs_files
sysfs_files leh800b = Leh800bScmcpld.sysfs_files

-- The method `probe` of the driver of a platform.
abbrev pub probe :
    {S : Type 0} → Platform → Regmap S → Answers → Panel → S → Ret (Unit {0}) × Panel × S
probe mp3 = Panels.mp3_scmcpld_probe
probe mp3n = Panels.mp3n_scmcpld_probe
probe w800 = Panels.w800_scmcpld_probe
probe anacapa = Panels.anacapa_scmcpld_probe
probe icecube = Panels.icecube_scmcpld_probe
probe tahansb = Panels.tahansb_scmcpld_probe
probe icetea = Panels.icetea_scmcpld_probe
probe leh800b = Panels.leh800b_scmcpld_probe

-- Whether the driver of a platform is to destroy its mutex if its files are refused.
abbrev pub destroys_mutex : Platform → Bool
destroys_mutex mp3 = false
destroys_mutex mp3n = false
destroys_mutex w800 = false
destroys_mutex anacapa = true
destroys_mutex icecube = false
destroys_mutex tahansb = false
destroys_mutex icetea = false
destroys_mutex leh800b = true

-- For each of the eight SCM CPLD drivers, when the kernel has memory for its data, the device has
-- no group of files yet and the LEDs of its table are set up, the probe returns the first refusal
-- of the kernel for the register map or the files, or success; all LEDs of the table are
-- registered, and the files of the driver's table are created exactly on success; on a refusal
-- the drivers of anacapa and leh800b have destroyed their mutex, and the other six have left it.
pub scmcpld_probe_outcome :
    {S : Type 0} (platform : Platform) (client : Regmap S) (a : Answers) (p : Panel) (s : S)
    → a.got_data ≡ true
    → p.files.group ≡ none
    → (front_panel_leds_init client a
        (leds_table platform)
        (record p { mutexes = p.mutexes + 1 })
        s).0
      ≡ ok tt
    → let (ret, p', s') = probe platform client a p s in
      (ret ≡ answered a)
      × (p'.leds ≡ p.leds ++ panel_leds (leds_table platform))
      × (p'.files ≡ after (answered a) (sysfs_files platform) p.files)
      × (p'.mutexes ≡ p.mutexes + (if destroys_mutex platform then mutex_of (answered a) else 1))
scmcpld_probe_outcome mp3 client a p s got fresh h =
    scmcpld_probe-Ends client a 0 Mp3Scmcpld.sysfs_files Panels.mp3_leds_table p s refl got fresh h
scmcpld_probe_outcome mp3n client a p s got fresh h =
    scmcpld_probe-Ends client a 2 Mp3nScmcpld.sysfs_files Panels.mp3n_leds_table p s refl got fresh
      h
scmcpld_probe_outcome w800 client a p s got fresh h =
    scmcpld_probe-Ends client a 3 W800Scmcpld.sysfs_files Panels.w800_leds_table p s refl got fresh
      h
scmcpld_probe_outcome anacapa client a p s got fresh h =
    scmcpld_probe_or_undo-Ends client a 6 AnacapaScmcpld.sysfs_files Panels.anacapa_leds_table p s
      refl got fresh h
scmcpld_probe_outcome icecube client a p s got fresh h =
    scmcpld_probe-Ends client a 8 IcecubeScmcpld.sysfs_files Panels.icecube_leds_table p s refl got
      fresh h
scmcpld_probe_outcome tahansb client a p s got fresh h =
    scmcpld_probe-Ends client a 11 TahansbScmcpld.sysfs_files Panels.tahansb_leds_table p s refl got
      fresh h
scmcpld_probe_outcome icetea client a p s got fresh h =
    scmcpld_probe-Ends client a 12 IceteaScmcpld.sysfs_files Panels.icetea_leds_table p s refl got
      fresh h
scmcpld_probe_outcome leh800b client a p s got fresh h =
    scmcpld_probe_or_undo-Ends client a 13 Leh800bScmcpld.sysfs_files Panels.leh800b_leds_table p s
      refl got fresh h
