-- ===== src/Fancpld/Configurations.antt =====
-- For each fan CPLD driver of a platform, the configuration with which the generic driver does what
-- it does.
use fboss_bsp_kmods.Base.{ℕ, zero, suc, ◌+◌, refl, Bool, true, false, pos, List, [], ◌∷◌}
use fboss_bsp_kmods.Fancpld.Drivers.Mp3
use fboss_bsp_kmods.Fancpld.Drivers.Mp3n
use fboss_bsp_kmods.Fancpld.Drivers.W800
use fboss_bsp_kmods.Fancpld.Drivers.Anacapa
use fboss_bsp_kmods.Fancpld.Drivers.Icecube
use fboss_bsp_kmods.Fancpld.Drivers.Tahansb
use fboss_bsp_kmods.Fancpld.Drivers.Icetea
use fboss_bsp_kmods.Fancpld.Drivers.Leh800b
use fboss_bsp_kmods.Fan.{FanConfig, tach_reg}
use fboss_bsp_kmods.Fancpld.Equivalence.{Fits}

-- The numbers of `n` fans from `fn` on.
abbrev pub fans_from : ℕ → ℕ → List ℕ
fans_from fn zero = []
fans_from fn (suc n) = fn ∷ fans_from (fn + 1) n

abbrev pub config : (num_fans pwm_max multiplier : ℕ) (has_rear_tach has_leds : Bool) → FanConfig
config num_fans pwm_max multiplier has_rear_tach has_leds = record {
  num_fans = num_fans;
  pwm_max = pwm_max;
  speed_multiplier = pos multiplier;
  has_rear_tach = has_rear_tach;
  has_leds = has_leds;
}

abbrev pub mp3_config : FanConfig
mp3_config = config 8 40 150 true true

pub mp3-Fits : Fits Mp3.macros mp3_config
unfolding tach_reg
mp3-Fits = record { limit = refl; multiplier = refl; tachometers = λ channel. refl }

abbrev pub mp3n_config : FanConfig
mp3n_config = config 8 40 150 true true

pub mp3n-Fits : Fits Mp3n.macros mp3n_config
unfolding tach_reg
mp3n-Fits = record { limit = refl; multiplier = refl; tachometers = λ channel. refl }

abbrev pub w800_config : FanConfig
w800_config = config 4 40 150 true true

pub w800-Fits : Fits W800.macros w800_config
unfolding tach_reg
w800-Fits = record { limit = refl; multiplier = refl; tachometers = λ channel. refl }

abbrev pub anacapa_config : FanConfig
anacapa_config = config 6 64 300 true false

pub anacapa-Fits : Fits Anacapa.macros anacapa_config
unfolding tach_reg
anacapa-Fits = record { limit = refl; multiplier = refl; tachometers = λ channel. refl }

abbrev pub icecube_config : FanConfig
icecube_config = config 4 64 300 true false

pub icecube-Fits : Fits Icecube.macros icecube_config
unfolding tach_reg
icecube-Fits = record { limit = refl; multiplier = refl; tachometers = λ channel. refl }

abbrev pub tahansb_config : FanConfig
tahansb_config = config 4 64 300 true false

pub tahansb-Fits : Fits Tahansb.macros tahansb_config
unfolding tach_reg
tahansb-Fits = record { limit = refl; multiplier = refl; tachometers = λ channel. refl }

abbrev pub icetea_config : FanConfig
icetea_config = config 4 64 300 false false

pub icetea-Fits : Fits Icetea.macros icetea_config
unfolding tach_reg
icetea-Fits = record { limit = refl; multiplier = refl; tachometers = λ channel. refl }

abbrev pub leh800b_config : FanConfig
leh800b_config = config 8 64 300 false true

pub leh800b-Fits : Fits Leh800b.macros leh800b_config
unfolding tach_reg
leh800b-Fits = record { limit = refl; multiplier = refl; tachometers = λ channel. refl }
