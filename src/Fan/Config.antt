-- ===== src/Fan/Config.antt =====
-- The configuration of fan/thermal_curve.c: its defaults, the stock profiles and the check that a
-- configuration passes before it is used.
pub mod Valid
pub mod Stock
use ugreen_nas_hardware.Prelude.{
  ℕ, Bool, true, false, not, ◌&&◌, ◌||◌, Option, none, some, ltb, leb, if◌then◌else◌, Bytes, codes,
  str_is, Result, ok, err, einval, erange,
}
use ugreen_nas_hardware.Fan.Curve.{
  CurveThresholds, CurvePwmPoints, FanCurveConfig, thermal_max_celsius,
}

abbrev pub thresholds : ℕ → ℕ → ℕ → ℕ → ℕ → CurveThresholds
thresholds a b c d e = record { stop = a; start = b; mid = c; full = d; maximum = e }

abbrev pub points : ℕ → ℕ → ℕ → ℕ → CurvePwmPoints
points a b c d = record { idle = a; mid = b; full = c; maximum = d }

unfoldable pub config_defaults : FanCurveConfig
config_defaults = record {
  profile = codes "custom";
  interval_seconds = 10;
  downshift_delay_seconds = 60;
  minimum_pwm = 64;
  failsafe_pwm = 255;
  require_storage_sensor = false;
  allow_unvalidated_writes = false;
  hdd_curve_enabled = true;
  ssd_curve_enabled = true;
  cpu = thresholds 50 55 75 80 90;
  hdd = thresholds 40 45 50 55 70;
  ssd = thresholds 45 50 60 65 70;
  pwm = points 64 128 204 255;
  system_pwm = points 64 128 204 255;
  cpu_pwm = points 64 128 204 255;
  system_cpu_floor_enabled = false;
  system_cpu_floor_start_celsius = 0;
  system_cpu_floor_end_celsius = 0;
  system_cpu_floor_start_pwm = 0;
  system_cpu_floor_end_pwm = 0;
}

unfoldable pub profile_is_valid : Bytes → Bool
profile_is_valid profile =
    str_is profile "custom"
    || str_is profile "stock-4600"
    || str_is profile "stock-4800"
    || str_is profile "stock-4800s"
    || str_is profile "stock-4800plus"
    || str_is profile "stock-480tplus"
    || str_is profile "stock-6800pro"
    || str_is profile "stock-6800plus"
    || str_is profile "stock-6800"

-- The assignments above the ladder of profiles.
abbrev stock_base : FanCurveConfig → FanCurveConfig
stock_base config = record config {
  minimum_pwm = 40;
  hdd_curve_enabled = true;
  ssd_curve_enabled = true;
  system_cpu_floor_enabled = false;
}

abbrev stock_curve :
    FanCurveConfig
    → CurveThresholds
    → CurveThresholds
    → CurveThresholds
    → CurvePwmPoints
    → CurvePwmPoints
    → FanCurveConfig
stock_curve config cpu hdd ssd system_pwm cpu_pwm = record (stock_base config) {
  cpu = cpu;
  hdd = hdd;
  ssd = ssd;
  system_pwm = system_pwm;
  cpu_pwm = cpu_pwm;
}

abbrev with_floor : FanCurveConfig → ℕ → ℕ → ℕ → ℕ → FanCurveConfig
with_floor config start_celsius end_celsius start_pwm end_pwm = record config {
  system_cpu_floor_enabled = true;
  system_cpu_floor_start_celsius = start_celsius;
  system_cpu_floor_end_celsius = end_celsius;
  system_cpu_floor_start_pwm = start_pwm;
  system_cpu_floor_end_pwm = end_pwm;
}

-- The ladder of profiles.
unfoldable pub stock_ladder : FanCurveConfig → FanCurveConfig
stock_ladder config =
    if str_is config.profile "stock-4600"
    then stock_curve config (thresholds 40 45 70 80 90) (thresholds 30 35 50 55 70)
        (thresholds 35 40 55 65 70) (points 64 152 228 255) (points 64 152 228 255)
    else if str_is config.profile "stock-4800"
    then stock_curve config (thresholds 45 50 70 75 85) (thresholds 35 40 45 50 65)
        (thresholds 40 45 55 60 65) (points 64 128 204 255) (points 64 128 204 255)
    else if str_is config.profile "stock-4800s"
    then stock_curve config (thresholds 50 55 75 80 90) (thresholds 40 45 50 55 70)
        (thresholds 45 50 60 65 70) (points 64 128 204 255) (points 64 128 204 255)
    else if str_is config.profile "stock-4800plus"
    then with_floor
        (stock_curve config (thresholds 42 50 70 78 90) (thresholds 30 40 46 52 55)
          (thresholds 50 55 60 65 70) (points 65 125 200 235) (points 60 125 205 230))
        65 90 100 205
    else if str_is config.profile "stock-480tplus"
    then record (stock_curve config (thresholds 25 55 75 85 95) (thresholds 0 0 0 0 0)
        (thresholds 40 50 60 70 80) (points 55 90 110 128) (points 70 130 150 200)) {
          hdd_curve_enabled = false;
        }
    else if str_is config.profile "stock-6800pro"
        || str_is config.profile "stock-6800plus"
        || str_is config.profile "stock-6800"
    then with_floor
        (stock_curve config (thresholds 25 38 55 75 90) (thresholds 30 35 43 48 55)
          (thresholds 45 50 60 65 70) (points 64 130 210 230) (points 80 130 210 230))
        65 90 125 220
    else stock_base config

unfoldable pub apply_stock_profile : FanCurveConfig → FanCurveConfig
unfolding stock_ladder
apply_stock_profile config =
    let config' = stock_ladder config in record config' { pwm = config'.system_pwm }

unfoldable pub valid_thresholds : CurveThresholds → Bool
valid_thresholds t =
    leb t.stop thermal_max_celsius
    && ltb t.stop t.start
    && ltb t.start t.mid
    && ltb t.mid t.full
    && ltb t.full t.maximum
    && leb t.maximum thermal_max_celsius

unfoldable pub valid_pwm_points : CurvePwmPoints → ℕ → Bool
valid_pwm_points p minimum_pwm =
    leb minimum_pwm p.idle
    && leb p.maximum 255
    && leb p.idle p.mid
    && leb p.mid p.full
    && leb p.full p.maximum

unfoldable pub timing_out_of_range : FanCurveConfig → Bool
timing_out_of_range c =
    ltb c.interval_seconds 2 || ltb 300 c.interval_seconds || ltb 3600 c.downshift_delay_seconds

unfoldable pub floor_out_of_range : FanCurveConfig → Bool
floor_out_of_range c =
    leb c.system_cpu_floor_end_celsius c.system_cpu_floor_start_celsius
    || ltb thermal_max_celsius c.system_cpu_floor_end_celsius
    || ltb c.system_cpu_floor_start_pwm c.minimum_pwm
    || ltb 255 c.system_cpu_floor_end_pwm
    || ltb c.system_cpu_floor_end_pwm c.system_cpu_floor_start_pwm

unfoldable pub curve_out_of_range : FanCurveConfig → Bool
curve_out_of_range c =
    ltb c.minimum_pwm 40
    || ltb 255 c.minimum_pwm
    || ltb c.failsafe_pwm c.minimum_pwm
    || ltb 255 c.failsafe_pwm
    || not (valid_pwm_points c.pwm c.minimum_pwm)
    || not (valid_pwm_points c.system_pwm c.minimum_pwm)
    || not (valid_pwm_points c.cpu_pwm c.minimum_pwm)
    || not (valid_thresholds c.cpu)
    || c.hdd_curve_enabled && not (valid_thresholds c.hdd)
    || c.ssd_curve_enabled && not (valid_thresholds c.ssd)
    || c.system_cpu_floor_enabled && floor_out_of_range c

unfoldable pub validate_config : Option FanCurveConfig → Result (Unit {0})
validate_config none = err einval
validate_config (some config) =
    if not (profile_is_valid config.profile)
    then err einval
    else if timing_out_of_range config
    then err erange
    else if curve_out_of_range config
    then err erange
    else ok tt
