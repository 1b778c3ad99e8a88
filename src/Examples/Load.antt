-- ===== src/Examples/Load.antt =====
-- A configuration that is written out and loaded, and a file that is loaded.
use ugreen_nas_hardware.Prelude.{
  ◌≡◌, ◌≤◌, refl, arith, ◌∷◌, ◌++◌, some, none, Bytes, codes, str_is, ok, err, enodata,
}
use ugreen_nas_hardware.Prelude.Scan.{
  skip_spaces, trim_end, is_space, strtoul, digits, is_digit, until_nul,
}
use ugreen_nas_hardware.Fan.Curve.{FanCurveConfig, plan_of}
use ugreen_nas_hardware.Fan.Config.{
  config_defaults, apply_stock_profile, validate_config, profile_is_valid, timing_out_of_range,
  curve_out_of_range, floor_out_of_range, valid_thresholds, valid_pwm_points,
}
use ugreen_nas_hardware.Fan.Config.Valid.{IsValid, validate_config_iff}
use ugreen_nas_hardware.Fan.Load.{
  load_config, read_lines, read_line, lines_from, finish_config, complete, set_split, set_value,
  set_profile, split_equals, trim, is_skipped,
}
use ugreen_nas_hardware.Fan.Load.Values.{parse_unsigned}
use ugreen_nas_hardware.Fan.Load.Laws.RoundTrip.{IsCustom, render, settings, load_config-render}
use ugreen_nas_hardware.Fan.Snapshot.{read_thermal_snapshot}
use ugreen_nas_hardware.Fan.Control.{load_config-read_thermal_snapshot}

abbrev slow : FanCurveConfig
slow = record config_defaults { interval_seconds = 30; minimum_pwm = 50 }

slow_passes : validate_config (some slow) ≡ ok tt
unfolding validate_config profile_is_valid timing_out_of_range curve_out_of_range floor_out_of_range
    valid_thresholds valid_pwm_points str_is config_defaults
slow_passes = refl

slow-IsCustom : IsCustom slow
unfolding config_defaults
slow-IsCustom = record {
  custom = refl;
  same_system = refl;
  same_cpu = refl;
  no_floor = refl;
  no_start = refl;
  no_end = refl;
  no_start_pwm = refl;
  no_end_pwm = refl;
  hdd_fits = omega arith;
  ssd_fits = omega arith;
}

load_config-render_example : load_config (some (ok (render (settings slow)))) ≡ ok slow
load_config-render_example =
    load_config-render slow ((validate_config_iff slow).0 slow_passes) slow-IsCustom

-- A file with a comment, a blank line and a profile.
abbrev file : Bytes
file =
    codes "# fans" ++ 10 ∷ 10 ∷ codes " profile = stock-4800 " ++ 10 ∷ codes "interval_seconds=30"

abbrev stock : FanCurveConfig
stock =
    apply_stock_profile
      (record config_defaults { profile = codes "stock-4800"; interval_seconds = 30 })

file_loads : load_config (some (ok file)) ≡ ok stock
unfolding load_config read_lines read_line lines_from finish_config complete set_split set_value
    set_profile split_equals trim is_skipped skip_spaces trim_end is_space strtoul digits is_digit
    until_nul parse_unsigned str_is profile_is_valid validate_config timing_out_of_range
    curve_out_of_range floor_out_of_range valid_thresholds valid_pwm_points config_defaults
    apply_stock_profile
file_loads = refl

load_config-read_thermal_snapshot_example :
    let plan = (plan_of stock (read_thermal_snapshot (err enodata) none).1).1 in
    IsValid stock
    × (40 ≤ stock.minimum_pwm)
    × (stock.minimum_pwm ≤ plan.cpu_pwm)
    × (plan.cpu_pwm ≤ 255)
    × (stock.minimum_pwm ≤ plan.system_pwm)
    × (plan.system_pwm ≤ 255)
load_config-read_thermal_snapshot_example =
    load_config-read_thermal_snapshot file stock (err enodata) none file_loads
