-- ===== src/Fan/Curve.antt =====
-- The temperature curve of fan/thermal_curve.c: its types, the evaluation of a configuration at a
-- set of temperatures. Pointers that may be NULL are options,
-- and an output parameter is the new value of an option that is `none` for NULL.

pub mod Parts
pub mod Plan
pub mod Demand
pub mod Source
pub mod Interpolate
use ugreen_nas_hardware.Prelude.{
  ℕ, ◌+◌, ◌*◌, ◌/◌, Bool, not, ◌&&◌, ◌||◌, Option, none, some, ltb, leb, ◌==◌, if◌then◌else◌, ℤ,
  is_negative, to_unsigned, u32, u64, sub32, Bytes, str_is, Result, ok, err, enodata, einval,
}

pub record CurveThresholds : Type 0 where
  pub stop : ℕ
  pub start : ℕ
  pub mid : ℕ
  pub full : ℕ
  pub maximum : ℕ

pub record CurvePwmPoints : Type 0 where
  pub idle : ℕ
  pub mid : ℕ
  pub full : ℕ
  pub maximum : ℕ

-- A negative temperature means that no sensor was read.
pub record ThermalSnapshot : Type 0 where
  pub cpu_celsius : ℤ
  pub hdd_celsius : ℤ
  pub ssd_celsius : ℤ
  pub cpu_peak_celsius : ℤ

pub record FanCurvePlan : Type 0 where
  pub cpu_pwm : ℕ
  pub system_pwm : ℕ

pub record FanCurveConfig : Type 0 where
  pub profile : Bytes
  pub interval_seconds : ℕ
  pub downshift_delay_seconds : ℕ
  pub minimum_pwm : ℕ
  pub failsafe_pwm : ℕ
  pub require_storage_sensor : Bool
  pub allow_unvalidated_writes : Bool
  pub hdd_curve_enabled : Bool
  pub ssd_curve_enabled : Bool
  pub cpu : CurveThresholds
  pub hdd : CurveThresholds
  pub ssd : CurveThresholds
  pub pwm : CurvePwmPoints
  pub system_pwm : CurvePwmPoints
  pub cpu_pwm : CurvePwmPoints
  pub system_cpu_floor_enabled : Bool
  pub system_cpu_floor_start_celsius : ℕ
  pub system_cpu_floor_end_celsius : ℕ
  pub system_cpu_floor_start_pwm : ℕ
  pub system_cpu_floor_end_pwm : ℕ

abbrev pub thermal_max_celsius : ℕ
thermal_max_celsius = 125

-- The denominator and the factors are 32-bit differences, the product has 64 bits.
unfoldable pub interpolate : ℕ → ℕ → ℕ → ℕ → ℕ → ℕ
interpolate left_temperature right_temperature left_pwm right_pwm temperature =
    let denominator = sub32 right_temperature left_temperature in
    let numerator = u64 (sub32 temperature left_temperature * sub32 right_pwm left_pwm) in
    if denominator == 0 then right_pwm else u32 (left_pwm + u32 (numerator / denominator))

unfoldable pub evaluate_source : CurveThresholds → CurvePwmPoints → ℤ → ℕ
evaluate_source thresholds points temperature =
    let value = to_unsigned temperature in
    if leb value thresholds.start
    then points.idle
    else if ltb value thresholds.mid
    then interpolate thresholds.start thresholds.mid points.idle points.mid value
    else if ltb value thresholds.full
    then interpolate thresholds.mid thresholds.full points.mid points.full value
    else if ltb value thresholds.maximum
    then interpolate thresholds.full thresholds.maximum points.full points.maximum value
    else points.maximum

unfoldable pub maximum_of : ℕ → ℕ → ℕ
maximum_of left right = if ltb right left then left else right

unfoldable pub cpu_system_floor : FanCurveConfig → ℤ → ℕ
cpu_system_floor config cpu_celsius =
    let cpu = to_unsigned cpu_celsius in
    if not config.system_cpu_floor_enabled || ltb cpu config.system_cpu_floor_start_celsius
    then 0
    else if leb config.system_cpu_floor_end_celsius cpu
    then config.system_cpu_floor_end_pwm
    else interpolate config.system_cpu_floor_start_celsius config.system_cpu_floor_end_celsius
        config.system_cpu_floor_start_pwm config.system_cpu_floor_end_pwm cpu

unfoldable pub fan_curve_cpu_celsius : ThermalSnapshot → ℤ
fan_curve_cpu_celsius snapshot =
    if not (is_negative snapshot.cpu_peak_celsius)
    then snapshot.cpu_peak_celsius
    else snapshot.cpu_celsius

-- `if (enabled && temperature >= 0) target = maximum_of(target, evaluate_source(...))`
unfoldable pub with_storage : Bool → CurveThresholds → CurvePwmPoints → ℤ → ℕ → ℕ
with_storage enabled thresholds points temperature target =
    if enabled && not (is_negative temperature)
    then maximum_of target (evaluate_source thresholds points temperature)
    else target

-- The system target, from the CPU curve up to the CPU floor.
unfoldable pub system_target : FanCurveConfig → ThermalSnapshot → ℕ
system_target config snapshot =
    let cpu_celsius = fan_curve_cpu_celsius snapshot in
    let of_cpu = evaluate_source config.cpu config.system_pwm cpu_celsius in
    let of_hdd =
      with_storage config.hdd_curve_enabled config.hdd config.system_pwm snapshot.hdd_celsius
        of_cpu in
    let of_ssd =
      with_storage config.ssd_curve_enabled config.ssd config.system_pwm snapshot.ssd_celsius
        of_hdd in
    maximum_of of_ssd (cpu_system_floor config cpu_celsius)

unfoldable pub cpu_target : FanCurveConfig → ThermalSnapshot → ℕ
unfolding system_target
cpu_target config snapshot =
    if str_is config.profile "custom"
    then system_target config snapshot
    else evaluate_source config.cpu config.cpu_pwm (fan_curve_cpu_celsius snapshot)

-- `ugreenctl_fan_curve_evaluate_plan` behind its NULL checks.
unfoldable pub plan_of : FanCurveConfig → ThermalSnapshot → Result (Unit {0}) × FanCurvePlan
plan_of config snapshot =
    if is_negative (fan_curve_cpu_celsius snapshot)
    then (err enodata, record { cpu_pwm = config.failsafe_pwm; system_pwm = config.failsafe_pwm })
    else if config.require_storage_sensor
        && is_negative snapshot.hdd_celsius
        && is_negative snapshot.ssd_celsius
    then (err enodata, record { cpu_pwm = config.failsafe_pwm; system_pwm = config.failsafe_pwm })
    else (
      ok tt,
      record {
        cpu_pwm = maximum_of (cpu_target config snapshot) config.minimum_pwm;
        system_pwm = maximum_of (system_target config snapshot) config.minimum_pwm;
      },
    )

unfoldable pub evaluate_plan :
    Option FanCurveConfig
    → Option ThermalSnapshot
    → Option FanCurvePlan
    → Result (Unit {0}) × Option FanCurvePlan
evaluate_plan (some config) (some snapshot) (some plan) =
    let (result, plan') = plan_of config snapshot in (result, some plan')
evaluate_plan _ _ plan = (err einval, plan)

-- What `*pwm` is set to after an error.
unfoldable pub failsafe_or_full : Option FanCurveConfig → ℕ
failsafe_or_full none = 255
failsafe_or_full (some config) = config.failsafe_pwm

unfoldable pub pwm_of_plan :
    Option FanCurveConfig
    → ℕ
    → Result (Unit {0}) × Option FanCurvePlan
    → Result (Unit {0}) × Option ℕ
pwm_of_plan config pwm (ok _, some plan) = (ok tt, some (maximum_of plan.cpu_pwm plan.system_pwm))
pwm_of_plan config pwm (ok _, none) = (ok tt, some pwm)
pwm_of_plan config pwm (err e, _) = (err e, some (failsafe_or_full config))

-- The local `plan` is not initialised: `garbage` stands for what it holds.
unfoldable pub evaluate :
    FanCurvePlan
    → Option FanCurveConfig
    → Option ThermalSnapshot
    → Option ℕ
    → Result (Unit {0}) × Option ℕ
evaluate garbage config snapshot none = (err einval, none)
evaluate garbage config snapshot (some pwm) =
    pwm_of_plan config pwm (evaluate_plan config snapshot (some garbage))
