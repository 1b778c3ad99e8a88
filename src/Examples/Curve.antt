-- ===== src/Examples/Curve.antt =====
-- The curve and its configuration at the default and the stock configurations.
use ugreen_nas_hardware.Prelude.{
  ◌≤◌, ◌≡◌, ◌↔◌, refl, arith, true, false, some, ok, err, enodata, ◌⊎◌, pos, negsuc, codes,
}
use ugreen_nas_hardware.Prelude.Text.{str_is}
use ugreen_nas_hardware.Fan.Curve.{
  FanCurveConfig, FanCurvePlan, ThermalSnapshot, plan_of, interpolate, evaluate_source, maximum_of,
  cpu_system_floor, with_storage, fan_curve_cpu_celsius, system_target, cpu_target,
}
use ugreen_nas_hardware.Fan.Config.{
  config_defaults, apply_stock_profile, validate_config, profile_is_valid, timing_out_of_range,
  curve_out_of_range, valid_thresholds, valid_pwm_points, floor_out_of_range,
}
use ugreen_nas_hardware.Fan.Config.Valid.{IsValid, validate_config_iff}
use ugreen_nas_hardware.Fan.Config.Stock.{apply_stock_profile-IsValid}
use ugreen_nas_hardware.Fan.Curve.Parts.{IsReading, AreHotter}
use ugreen_nas_hardware.Fan.Curve.Plan.{plan_of_bounds, plan_of_mono}
use ugreen_nas_hardware.Fan.Curve.Demand.{IsEnough, plan_of_failsafe_iff, plan_of_least}

checker : Unit {0}
unfolding str_is validate_config profile_is_valid timing_out_of_range curve_out_of_range
    valid_thresholds valid_pwm_points floor_out_of_range
checker = tt

planner : Unit {0}
unfolding str_is plan_of interpolate evaluate_source maximum_of cpu_system_floor with_storage
    fan_curve_cpu_celsius system_target cpu_target
planner = tt

abbrev warm : ThermalSnapshot
warm = record {
  cpu_celsius = pos 48;
  hdd_celsius = pos 47;
  ssd_celsius = negsuc 0;
  cpu_peak_celsius = pos 65;
}

abbrev hot : ThermalSnapshot
hot = record {
  cpu_celsius = pos 70;
  hdd_celsius = pos 49;
  ssd_celsius = pos 62;
  cpu_peak_celsius = pos 90;
}

defaults_pass : validate_config (some config_defaults) ≡ ok tt
unfolding checker config_defaults
defaults_pass = refl

warm_plan : plan_of config_defaults warm ≡ (ok tt, record { cpu_pwm = 96; system_pwm = 96 })
unfolding planner config_defaults
warm_plan = refl

abbrev plus_4800 : FanCurveConfig
plus_4800 = record config_defaults { profile = codes "stock-4800plus" }

plus_plan :
    plan_of (apply_stock_profile plus_4800) warm
    ≡ (ok tt, record { cpu_pwm = 108; system_pwm = 137 })
unfolding planner config_defaults apply_stock_profile
plus_plan = refl

validate_config_iff_example :
    (validate_config (some config_defaults) ≡ ok tt) ↔ IsValid config_defaults
validate_config_iff_example = validate_config_iff config_defaults

defaults-IsValid : IsValid config_defaults
defaults-IsValid = (validate_config_iff config_defaults).0 defaults_pass

apply_stock_profile-IsValid_example :
    let c' = apply_stock_profile plus_4800 in
    (validate_config (some c') ≡ ok tt)
    × (c'.profile ≡ codes "stock-4800plus")
    × (c'.interval_seconds ≡ 10)
    × (c'.downshift_delay_seconds ≡ 60)
    × (c'.failsafe_pwm ≡ 255)
    × (c'.pwm ≡ c'.system_pwm)
unfolding checker config_defaults
apply_stock_profile-IsValid_example =
    apply_stock_profile-IsValid plus_4800 refl refl (omega arith) (omega arith) (omega arith)

warm-IsReading : IsReading warm
warm-IsReading = omega arith

warm-hot : AreHotter warm hot
unfolding fan_curve_cpu_celsius
warm-hot = omega arith

plan_of_bounds_example :
    let plan = (plan_of config_defaults warm).1 in
    (40 ≤ config_defaults.minimum_pwm)
    × (config_defaults.minimum_pwm ≤ plan.cpu_pwm)
    × (plan.cpu_pwm ≤ 255)
    × (config_defaults.minimum_pwm ≤ plan.system_pwm)
    × (plan.system_pwm ≤ 255)
plan_of_bounds_example = plan_of_bounds config_defaults defaults-IsValid.safe warm warm-IsReading

warm_planned : (plan_of config_defaults warm).0 ≡ ok tt
unfolding planner config_defaults
warm_planned = refl

plan_of_mono_example :
    ((plan_of config_defaults hot).0 ≡ ok tt)
    × ((plan_of config_defaults warm).1.cpu_pwm ≤ (plan_of config_defaults hot).1.cpu_pwm)
    × ((plan_of config_defaults warm).1.system_pwm ≤ (plan_of config_defaults hot).1.system_pwm)
plan_of_mono_example =
    plan_of_mono config_defaults defaults-IsValid.safe warm hot warm-hot warm_planned

plan_of_least_example :
    ((plan_of config_defaults warm).1.system_pwm ≤ 100) ↔ IsEnough config_defaults warm 100
plan_of_least_example = plan_of_least config_defaults warm warm_planned 100

abbrev unread : ThermalSnapshot
unread = record {
  cpu_celsius = negsuc 0;
  hdd_celsius = pos 40;
  ssd_celsius = negsuc 0;
  cpu_peak_celsius = negsuc 0;
}

plan_of_failsafe_iff_example :
    (plan_of config_defaults unread ≡ (
      err enodata,
      record { cpu_pwm = config_defaults.failsafe_pwm; system_pwm = config_defaults.failsafe_pwm },
    ))
    ↔ ((true ≡ true) × (true ≡ true)
        ⊎ (config_defaults.require_storage_sensor ≡ true) × (false ≡ true) × (true ≡ true))
plan_of_failsafe_iff_example = plan_of_failsafe_iff config_defaults unread

abbrev unset : FanCurvePlan
unset = record { cpu_pwm = 7; system_pwm = 9 }
