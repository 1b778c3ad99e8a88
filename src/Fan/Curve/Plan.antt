-- ===== src/Fan/Curve/Plan.antt =====
-- The whole plan: its range, and that more heat never means less cooling.
use ugreen_nas_hardware.Prelude.{
  ◌≤◌, ◌≡◌, ℤ, pos, negsuc, arith, is_negative, Bool, false, ok, refl, ◌&&◌,
}
use native.Mathlib.Nat.{le_refl}
use ugreen_nas_hardware.Fan.Curve.{
  ThermalSnapshot, FanCurvePlan, FanCurveConfig, evaluate_source, maximum_of, cpu_system_floor,
  fan_curve_cpu_celsius, system_target, cpu_target, plan_of,
}
use ugreen_nas_hardware.Fan.Curve.Source.{
  evaluate_source_bounds, evaluate_source_mono, cpu_system_floor-le, cpu_system_floor_mono,
}
use ugreen_nas_hardware.Fan.Config.Valid.{IsSafeCurve}
use ugreen_nas_hardware.Fan.Curve.Parts.{
  Fits, IsReading, Hotter, AreHotter, fan_curve_cpu_celsius-Fits, maximum_of-le, le-maximum_of,
  maximum_of_mono, with_storage-le, with_storage_mono,
}

-- The failsafe cases: no CPU temperature, or no storage temperature where one is required.
abbrev pub lacks_storage : FanCurveConfig → ThermalSnapshot → Bool
lacks_storage c s =
    c.require_storage_sensor && is_negative s.hdd_celsius && is_negative s.ssd_celsius

-- The plan of the curve, with the minimum applied.
abbrev pub curve_plan : FanCurveConfig → ThermalSnapshot → FanCurvePlan
curve_plan c s = record {
  cpu_pwm = maximum_of (cpu_target c s) c.minimum_pwm;
  system_pwm = maximum_of (system_target c s) c.minimum_pwm;
}

pub of_curve :
    (c : FanCurveConfig) (s : ThermalSnapshot)
    → (plan_of c s).0 ≡ ok tt
    → (is_negative (fan_curve_cpu_celsius s) ≡ false)
      × (lacks_storage c s ≡ false)
      × (plan_of c s ≡ (ok tt, curve_plan c s))
unfolding plan_of
of_curve c s h = (ground arith, ground arith, ground arith)

of_curve_intro :
    (c : FanCurveConfig) (s : ThermalSnapshot)
    → is_negative (fan_curve_cpu_celsius s) ≡ false
    → lacks_storage c s ≡ false
    → plan_of c s ≡ (ok tt, curve_plan c s)
unfolding plan_of
of_curve_intro c s h k = ground arith

Hotter-is_negative : (t u : ℤ) → Hotter t u → is_negative t ≡ false → is_negative u ≡ false
Hotter-is_negative (pos t) (pos u) h n = n
Hotter-is_negative (pos t) (negsuc u) h n = absurd h
Hotter-is_negative (negsuc t) u h n = cc

of_curve_hotter :
    (c : FanCurveConfig) (s s' : ThermalSnapshot)
    → AreHotter s s'
    → is_negative (fan_curve_cpu_celsius s) ≡ false
    → lacks_storage c s ≡ false
    → plan_of c s' ≡ (ok tt, curve_plan c s')
of_curve_hotter c s s' h n k = of_curve_intro c s' (Hotter-is_negative _ _ h.cpu n) (
    ground (
      arith,
      Hotter-is_negative s.hdd_celsius s'.hdd_celsius h.hdd,
      Hotter-is_negative s.ssd_celsius s'.ssd_celsius h.ssd,
    ))

module _ (c : FanCurveConfig) (v : IsSafeCurve c) where
  evaluate_cpu-le :
      (t : ℤ)
      → is_negative t ≡ false
      → Fits t
      → (evaluate_source c.cpu c.system_pwm t ≤ 255)
        × (evaluate_source c.cpu c.cpu_pwm t ≤ 255)
        × (cpu_system_floor c t ≤ 255)
  evaluate_cpu-le (pos t) n f = ground (
    arith,
    evaluate_source_bounds c.cpu c.system_pwm v.cpu_rising v.system_ordered t f,
    evaluate_source_bounds c.cpu c.cpu_pwm v.cpu_rising v.cpu_ordered t f,
    cpu_system_floor-le c v.floor_sound t f,
  )
  evaluate_cpu-le (negsuc t) n f = cc

  system_target-le :
      (s : ThermalSnapshot)
      → IsReading s
      → is_negative (fan_curve_cpu_celsius s) ≡ false
      → system_target c s ≤ 255
  unfolding system_target
  system_target-le s h n =
      let cpu = evaluate_cpu-le (fan_curve_cpu_celsius s) n (fan_curve_cpu_celsius-Fits s h) in
      maximum_of-le _ _ 255
        (with_storage-le c.ssd_curve_enabled c.ssd c.system_pwm v.system_ordered v.ssd_rising
          s.ssd_celsius _ h.ssd
          (with_storage-le c.hdd_curve_enabled c.hdd c.system_pwm v.system_ordered v.hdd_rising
            s.hdd_celsius _ h.hdd cpu.0))
        cpu.2

  cpu_target-le :
      (s : ThermalSnapshot)
      → IsReading s
      → is_negative (fan_curve_cpu_celsius s) ≡ false
      → cpu_target c s ≤ 255
  unfolding cpu_target
  cpu_target-le s h n = ground (
    arith,
    system_target-le s h n,
    evaluate_cpu-le (fan_curve_cpu_celsius s) n (fan_curve_cpu_celsius-Fits s h),
  )

  -- Whatever the sensors say, both channels are asked for a PWM value between the configured
  -- minimum, which is at least 40, and 255: with readings, and in each of the two failsafe cases.
  pub plan_of_bounds :
      (s : ThermalSnapshot)
      → IsReading s
      → let plan = (plan_of c s).1 in
        (40 ≤ c.minimum_pwm)
        × (c.minimum_pwm ≤ plan.cpu_pwm)
        × (plan.cpu_pwm ≤ 255)
        × (c.minimum_pwm ≤ plan.system_pwm)
        × (plan.system_pwm ≤ 255)
  unfolding plan_of
  plan_of_bounds s h = ground (
    arith,
    λ (n : is_negative (fan_curve_cpu_celsius s) ≡ false). system_target-le s h n,
    λ (n : is_negative (fan_curve_cpu_celsius s) ≡ false). cpu_target-le s h n,
    maximum_of-le (cpu_target c s) c.minimum_pwm 255,
    maximum_of-le (system_target c s) c.minimum_pwm 255,
    le-maximum_of (cpu_target c s) c.minimum_pwm,
    le-maximum_of (system_target c s) c.minimum_pwm,
  )

  evaluate_cpu_mono :
      (t u : ℤ)
      → is_negative t ≡ false
      → Hotter t u
      → (evaluate_source c.cpu c.system_pwm t ≤ evaluate_source c.cpu c.system_pwm u)
        × (evaluate_source c.cpu c.cpu_pwm t ≤ evaluate_source c.cpu c.cpu_pwm u)
        × (cpu_system_floor c t ≤ cpu_system_floor c u)
  evaluate_cpu_mono (pos t) (pos u) n f = (
    evaluate_source_mono c.cpu c.system_pwm v.cpu_rising v.system_ordered t u f.1 f.0,
    evaluate_source_mono c.cpu c.cpu_pwm v.cpu_rising v.cpu_ordered t u f.1 f.0,
    cpu_system_floor_mono c v.floor_sound t u f.1 f.0,
  )
  evaluate_cpu_mono (pos t) (negsuc u) n f = absurd f
  evaluate_cpu_mono (negsuc t) u n f = cc

  system_target_mono :
      (s s' : ThermalSnapshot)
      → AreHotter s s'
      → is_negative (fan_curve_cpu_celsius s) ≡ false
      → system_target c s ≤ system_target c s'
  unfolding system_target
  system_target_mono s s' h n =
      let cpu = evaluate_cpu_mono (fan_curve_cpu_celsius s) (fan_curve_cpu_celsius s') n h.cpu in
      maximum_of_mono _ _ _ _
        (with_storage_mono c.ssd_curve_enabled c.ssd c.system_pwm v.system_ordered v.ssd_rising
          s.ssd_celsius s'.ssd_celsius _ _ h.ssd
          (with_storage_mono c.hdd_curve_enabled c.hdd c.system_pwm v.system_ordered v.hdd_rising
            s.hdd_celsius s'.hdd_celsius _ _ h.hdd cpu.0))
        cpu.2

  cpu_target_mono :
      (s s' : ThermalSnapshot)
      → AreHotter s s'
      → is_negative (fan_curve_cpu_celsius s) ≡ false
      → cpu_target c s ≤ cpu_target c s'
  unfolding cpu_target
  cpu_target_mono s s' h n = ground (
    arith,
    system_target_mono s s' h n,
    evaluate_cpu_mono (fan_curve_cpu_celsius s) (fan_curve_cpu_celsius s') n h.cpu,
  )

  -- Where the first snapshot gives a plan by the curve, a snapshot that is at least as hot on
  -- every source gives one too, and neither channel is asked for less PWM.
  pub plan_of_mono :
      (s s' : ThermalSnapshot)
      → AreHotter s s'
      → (plan_of c s).0 ≡ ok tt
      → ((plan_of c s').0 ≡ ok tt)
        × ((plan_of c s).1.cpu_pwm ≤ (plan_of c s').1.cpu_pwm)
        × ((plan_of c s).1.system_pwm ≤ (plan_of c s').1.system_pwm)
  plan_of_mono s s' h e =
      let (n, k, a) = of_curve c s e in
      let b = of_curve_hotter c s s' h n k in
      rw (a, b)
        (
          refl,
          maximum_of_mono _ _ _ _ (cpu_target_mono s s' h n) (le_refl _),
          maximum_of_mono _ _ _ _ (system_target_mono s s' h n) (le_refl _),
        )
