-- ===== src/Examples/Daemon.antt =====
-- Rounds of the daemon on a DXP4800 Plus and on a model that requires `--force`.
use ugreen_nas_hardware.Prelude.{
  ℕ, ◌≤◌, ◌≡◌, inl, refl, arith, true, false, List, [], ◌∷◌, Result, ok, err, enodata, pos, negsuc,
  Bytes, codes, All, ◌+◌,
}
use ugreen_nas_hardware.Prelude.Text.{str_is}
use ugreen_nas_hardware.Fan.Curve.{
  ThermalSnapshot, plan_of, interpolate, evaluate_source, maximum_of, cpu_system_floor,
  with_storage, fan_curve_cpu_celsius, system_target, cpu_target,
}
use ugreen_nas_hardware.Fan.Config.{
  config_defaults, validate_config, profile_is_valid, timing_out_of_range, curve_out_of_range,
  valid_thresholds, valid_pwm_points, floor_out_of_range,
}
use ugreen_nas_hardware.Fan.Config.Valid.{IsSafeCurve, validate_config_iff}
use ugreen_nas_hardware.Fan.Daemon.Hold.{new_hold, hold_lower_pwm}
use ugreen_nas_hardware.Fan.Daemon.Routes.{ModelRoute, route, cpu_and, sys_only}
use ugreen_nas_hardware.Fan.Daemon.{
  DaemonPaths, Launch, launch_of, Tick, desired_for_target, apply_pwm, record_write, step_target,
  after_write, update_targets, or_failsafe, tick_plan, daemon_round, daemon_run,
}
use ugreen_nas_hardware.Fan.Daemon.Steps.{IsApplied, IsWrite}
use ugreen_nas_hardware.Fan.Daemon.Rounds.{AreCooled}
use ugreen_nas_hardware.Fan.Daemon.Patience.{Call, visit, after_visits, IsHeld, visit_patience}
use ugreen_nas_hardware.Fan.Daemon.Guarantees.{
  IsRefused, new_states, daemon_round_cools, daemon_round_failsafe, daemon_run_range,
  daemon_round_forbidden,
}

abbrev paths : DaemonPaths
paths = record {
  binary = codes "/usr/local/bin/ugreenctl";
  plugin_dir = codes "/usr/local/lib/ugreenctl/models";
}

abbrev launch : Launch
launch = launch_of config_defaults paths

abbrev plus : ModelRoute
plus = route "DXP4800 Plus" "dxp4800plus" (cpu_and "sys") false

abbrev guarded : ModelRoute
guarded = route "DXP4800" "dxp4800" sys_only true

abbrev accepting : List Bytes → Result (Unit {0})
accepting argv = ok tt

abbrev cool : ThermalSnapshot
cool = record {
  cpu_celsius = pos 48;
  hdd_celsius = pos 38;
  ssd_celsius = negsuc 0;
  cpu_peak_celsius = pos 65;
}

abbrev ticking : Tick
ticking = record { reading = (ok tt, cool); now = λ _. 1000; spawn = accepting }

abbrev blind : Tick
blind = record { reading = (err enodata, cool); now = λ _. 1010; spawn = accepting }

round : Unit {0}
unfolding str_is plan_of interpolate evaluate_source maximum_of cpu_system_floor with_storage
    fan_curve_cpu_celsius system_target cpu_target hold_lower_pwm desired_for_target apply_pwm
    record_write step_target after_write update_targets or_failsafe tick_plan daemon_round
    new_states config_defaults
round = tt

daemon_round_cools_example :
    AreCooled
      (tick_plan config_defaults ticking.reading).1
      plus.targets
      (daemon_round config_defaults plus paths new_states ticking).0.states
unfolding round
daemon_round_cools_example =
    daemon_round_cools config_defaults plus paths new_states ticking (omega arith) refl

daemon_round_failsafe_example :
    AreCooled
      (record { cpu_pwm = config_defaults.failsafe_pwm; system_pwm = config_defaults.failsafe_pwm })
      plus.targets
      (daemon_round config_defaults plus paths new_states blind).0.states
unfolding round
daemon_round_failsafe_example =
    daemon_round_failsafe config_defaults plus paths new_states blind (omega arith) (inl (λ e. cc))
      refl

defaults_safe : IsSafeCurve config_defaults
unfolding str_is validate_config profile_is_valid timing_out_of_range curve_out_of_range
    valid_thresholds valid_pwm_points floor_out_of_range config_defaults
defaults_safe = ((validate_config_iff config_defaults).0 refl).safe

daemon_run_range_example :
    All
      (IsApplied config_defaults.minimum_pwm)
      (daemon_run config_defaults plus paths new_states (ticking ∷ []))
    × All
        (IsWrite launch false config_defaults.minimum_pwm)
        (daemon_round config_defaults plus paths
          (daemon_run config_defaults plus paths new_states (ticking ∷ []))
          blind).0.started
unfolding config_defaults
daemon_run_range_example =
    daemon_run_range config_defaults plus paths defaults_safe (ticking ∷ []) blind (omega arith)

daemon_round_forbidden_example : IsRefused (
    daemon_round config_defaults guarded paths
      (daemon_run config_defaults guarded paths new_states (ticking ∷ []))
      blind)
unfolding config_defaults
daemon_round_forbidden_example =
    daemon_round_forbidden config_defaults guarded paths refl refl (omega arith) (ticking ∷ [])
      blind

abbrev call : ℕ → ℕ → Call
call now desired = record { now = now; desired = desired; spawn = accepting }

abbrev history : List Call
history = call 1050 90 ∷ call 1020 90 ∷ call 1000 120 ∷ []

visit_patience_example :
    (since : ℕ) × ((after_visits launch false "cpu" 60 (call 1080 90 ∷ history)).applied_pwm ≡ 90)
    × IsHeld 90 since (call 1080 90 ∷ history)
    × (since + 60 ≤ 1080)
unfolding round after_visits visit new_hold
visit_patience_example =
    visit_patience launch false "cpu" 60 history (call 1080 90) (omega arith) (omega arith)
      (omega arith) refl (omega arith)
