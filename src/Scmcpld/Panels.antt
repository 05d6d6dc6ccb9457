-- ===== src/Scmcpld/Panels.antt =====
-- The LEDs of the front panels of the platforms, and the probes of their SCM CPLD drivers, one of
-- kmods/*/*_scmcpld_i2c.c each.
use fboss_bsp_kmods.Base.{ℕ, List, [], ◌∷◌, Text}
use fboss_bsp_kmods.Print.{codes}
use fboss_bsp_kmods.Kernel.{Ret, Regmap}
use fboss_bsp_kmods.Scmcpld.Probe.{LedsInfo, Panel, Answers, scmcpld_probe, scmcpld_probe_or_undo}
use fboss_bsp_kmods.Tables.Mp3Scmcpld
use fboss_bsp_kmods.Tables.Mp3nScmcpld
use fboss_bsp_kmods.Tables.W800Scmcpld
use fboss_bsp_kmods.Tables.AnacapaScmcpld
use fboss_bsp_kmods.Tables.IcecubeScmcpld
use fboss_bsp_kmods.Tables.TahansbScmcpld
use fboss_bsp_kmods.Tables.IceteaScmcpld
use fboss_bsp_kmods.Tables.Leh800bScmcpld

abbrev led : Text → (reg_addr bitsmask : ℕ) → LedsInfo
led name reg_addr bitsmask = record { name = name; reg_addr = reg_addr; bitsmask = bitsmask }

abbrev pub mp3_leds_table : List LedsInfo
mp3_leds_table =
    led (codes "sys_led") 0x44 0b111
    ∷ led (codes "smb_led") 0x41 0b111
    ∷ led (codes "psu_led") 0x42 0b111
    ∷ led (codes "fan_led") 0x43 0b111
    ∷ []

abbrev pub mp3_scmcpld_probe :
    {S : Type 0} → Regmap S → Answers → Panel → S → Ret (Unit {0}) × Panel × S
mp3_scmcpld_probe client a p s = scmcpld_probe client a mp3_leds_table Mp3Scmcpld.sysfs_files p s

abbrev pub mp3n_leds_table : List LedsInfo
mp3n_leds_table =
    led (codes "sys_led") 0x44 0b111
    ∷ led (codes "smb_led") 0x41 0b111
    ∷ led (codes "psu_led") 0x42 0b111
    ∷ led (codes "fan_led") 0x43 0b111
    ∷ []

abbrev pub mp3n_scmcpld_probe :
    {S : Type 0} → Regmap S → Answers → Panel → S → Ret (Unit {0}) × Panel × S
mp3n_scmcpld_probe client a p s = scmcpld_probe client a mp3n_leds_table Mp3nScmcpld.sysfs_files p s

abbrev pub w800_leds_table : List LedsInfo
w800_leds_table =
    led (codes "sys_led") 0x44 0b111
    ∷ led (codes "smb_led") 0x41 0b111
    ∷ led (codes "psu_led") 0x42 0b111
    ∷ led (codes "fan_led") 0x43 0b111
    ∷ []

abbrev pub w800_scmcpld_probe :
    {S : Type 0} → Regmap S → Answers → Panel → S → Ret (Unit {0}) × Panel × S
w800_scmcpld_probe client a p s = scmcpld_probe client a w800_leds_table W800Scmcpld.sysfs_files p s

abbrev pub anacapa_leds_table : List LedsInfo
anacapa_leds_table =
    led (codes "sys_led") 0x44 0b10111
    ∷ led (codes "smb_led") 0x41 0b10111
    ∷ led (codes "psu_led") 0x42 0b10111
    ∷ led (codes "fan_led") 0x43 0b10111
    ∷ []

abbrev pub anacapa_scmcpld_probe :
    {S : Type 0} → Regmap S → Answers → Panel → S → Ret (Unit {0}) × Panel × S
anacapa_scmcpld_probe client a p s =
    scmcpld_probe_or_undo client a anacapa_leds_table AnacapaScmcpld.sysfs_files p s

abbrev pub icecube_leds_table : List LedsInfo
icecube_leds_table =
    led (codes "sys_led") 0x44 0b10111
    ∷ led (codes "smb_led") 0x41 0b10111
    ∷ led (codes "psu_led") 0x42 0b10111
    ∷ led (codes "fan_led") 0x43 0b10111
    ∷ []

abbrev pub icecube_scmcpld_probe :
    {S : Type 0} → Regmap S → Answers → Panel → S → Ret (Unit {0}) × Panel × S
icecube_scmcpld_probe client a p s =
    scmcpld_probe client a icecube_leds_table IcecubeScmcpld.sysfs_files p s

abbrev pub tahansb_leds_table : List LedsInfo
tahansb_leds_table =
    led (codes "sys_led") 0x44 0b10111
    ∷ led (codes "smb_led") 0x41 0b10111
    ∷ led (codes "psu_led") 0x42 0b10111
    ∷ led (codes "fan_led") 0x43 0b10111
    ∷ []

abbrev pub tahansb_scmcpld_probe :
    {S : Type 0} → Regmap S → Answers → Panel → S → Ret (Unit {0}) × Panel × S
tahansb_scmcpld_probe client a p s =
    scmcpld_probe client a tahansb_leds_table TahansbScmcpld.sysfs_files p s

abbrev pub icetea_leds_table : List LedsInfo
icetea_leds_table =
    led (codes "sys_led") 0x44 0b10111
    ∷ led (codes "smb_led") 0x41 0b10111
    ∷ led (codes "psu_led") 0x42 0b10111
    ∷ led (codes "fan_led") 0x43 0b10111
    ∷ []

abbrev pub icetea_scmcpld_probe :
    {S : Type 0} → Regmap S → Answers → Panel → S → Ret (Unit {0}) × Panel × S
icetea_scmcpld_probe client a p s =
    scmcpld_probe client a icetea_leds_table IceteaScmcpld.sysfs_files p s

abbrev pub leh800b_leds_table : List LedsInfo
leh800b_leds_table =
    led (codes "sys_led") 0x44 0b10111
    ∷ led (codes "smb_led") 0x41 0b10111
    ∷ led (codes "psu_led") 0x42 0b10111
    ∷ led (codes "fan_led") 0x43 0b10111
    ∷ []

abbrev pub leh800b_scmcpld_probe :
    {S : Type 0} → Regmap S → Answers → Panel → S → Ret (Unit {0}) × Panel × S
leh800b_scmcpld_probe client a p s =
    scmcpld_probe_or_undo client a leh800b_leds_table Leh800bScmcpld.sysfs_files p s
