-- ===== src/Fan/Curve/Demand.antt =====
-- The plan against what each source demands, the failsafe cases, and the single PWM value.
use ugreen_nas_hardware.Prelude.{
  ℕ, ◌≤◌, ◌≡◌, ◌⊎◌, ◌↔◌, arith, is_negative, false, true, ok, err, enodata, some, none, einval,
  refl,
}
use ugreen_nas_hardware.Fan.Curve.{
  ThermalSnapshot, FanCurvePlan, FanCurveConfig, evaluate_source, maximum_of, cpu_system_floor,
  with_storage, fan_curve_cpu_celsius, system_target, plan_of, evaluate_plan, evaluate, pwm_of_plan,
  failsafe_or_full,
}
use ugreen_nas_hardware.Fan.Curve.Plan.{of_curve, curve_plan}

-- A plan is refused, with the failsafe PWM for both channels, exactly when there is no CPU
-- temperature, or no storage temperature where the configuration requires one.
pub plan_of_failsafe_iff :
    (c : FanCurveConfig) (s : ThermalSnapshot)
    → (plan_of c s
        ≡ (err enodata, record { cpu_pwm = c.failsafe_pwm; system_pwm = c.failsafe_pwm }))
      ↔ ((is_negative s.cpu_celsius ≡ true) × (is_negative s.cpu_peak_celsius ≡ true)
          ⊎ (c.require_storage_sensor ≡ true)
            × (is_negative s.hdd_celsius ≡ true)
            × (is_negative s.ssd_celsius ≡ true))
unfolding plan_of fan_curve_cpu_celsius
plan_of_failsafe_iff c s = (λ h. ground arith, λ h. ground arith)

-- A PWM value that no source finds too low.
pub record IsEnough (c : FanCurveConfig) (s : ThermalSnapshot) (n : ℕ) : Type 0 where
  pub of_cpu : evaluate_source c.cpu c.system_pwm (fan_curve_cpu_celsius s) ≤ n
  pub of_hdd :
      c.hdd_curve_enabled ≡ true
      → is_negative s.hdd_celsius ≡ false
      → evaluate_source c.hdd c.system_pwm s.hdd_celsius ≤ n
  pub of_ssd :
      c.ssd_curve_enabled ≡ true
      → is_negative s.ssd_celsius ≡ false
      → evaluate_source c.ssd c.system_pwm s.ssd_celsius ≤ n
  pub of_floor : cpu_system_floor c (fan_curve_cpu_celsius s) ≤ n
  pub of_minimum : c.minimum_pwm ≤ n

curve_plan_least :
    (c : FanCurveConfig) (s : ThermalSnapshot) (n : ℕ)
    → ((curve_plan c s).system_pwm ≤ n) ↔ IsEnough c s n
unfolding system_target with_storage maximum_of
curve_plan_least c s n = (λ h. ground arith, λ h. ground arith)

-- The system channel gets the least PWM value that is enough for the CPU curve, for each enabled
-- disk curve that has a reading, for the CPU floor and for the configured minimum.
pub plan_of_least :
    (c : FanCurveConfig) (s : ThermalSnapshot)
    → (plan_of c s).0 ≡ ok tt
    → (n : ℕ) → ((plan_of c s).1.system_pwm ≤ n) ↔ IsEnough c s n
plan_of_least c s e n = let (_, _, a) = of_curve c s e in rw a (curve_plan_least c s n)

-- With all pointers given, the single PWM value is the larger of the two channels of the plan,
-- the failsafe plan included, with the plan's result; what the local plan held before does not
-- matter. Without a configuration it is 255, and without temperatures the failsafe value.
pub evaluate_lem :
    (garbage : FanCurvePlan) (c : FanCurveConfig) (s : ThermalSnapshot) (pwm : ℕ)
    → (evaluate garbage (some c) (some s) (some pwm)
        ≡ ((plan_of c s).0, some (maximum_of (plan_of c s).1.cpu_pwm (plan_of c s).1.system_pwm)))
      × (evaluate garbage none (some s) (some pwm) ≡ (err einval, some 255))
      × (evaluate garbage (some c) none (some pwm) ≡ (err einval, some c.failsafe_pwm))
unfolding evaluate evaluate_plan pwm_of_plan failsafe_or_full plan_of maximum_of
evaluate_lem garbage c s pwm = (ground arith, refl, refl)
