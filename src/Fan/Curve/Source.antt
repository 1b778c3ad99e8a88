-- ===== src/Fan/Curve/Source.antt =====
-- One curve: how `evaluate_source` answers at a temperature.
use ugreen_nas_hardware.Prelude.{ℕ, ◌≤◌, ◌<◌, ◌^◌, ◌≡◌, pos, arith, true}
use ugreen_nas_hardware.Fan.Curve.{
  CurveThresholds, CurvePwmPoints, FanCurveConfig, evaluate_source, cpu_system_floor,
}
use ugreen_nas_hardware.Fan.Curve.Interpolate.{
  IsSegment, interpolate_bounds, interpolate_mono, interpolate_lem,
}
use ugreen_nas_hardware.Fan.Config.Valid.{IsRising, IsOrdered, IsFloor}

-- A temperature that a sensor can report: an `int` that is not negative.
abbrev pub FitsInt : ℕ → Type 0
FitsInt t = t < 2 ^ 31

module _ {m : ℕ} (th : CurveThresholds) (p : CurvePwmPoints) (r : IsRising th)
    (o : IsOrdered p m) where
  first : IsSegment th.start th.mid p.idle p.mid
  first = omega arith

  second : IsSegment th.mid th.full p.mid p.full
  second = omega arith

  third : IsSegment th.full th.maximum p.full p.maximum
  third = omega arith

  pub evaluate_source_bounds :
      (t : ℕ)
      → FitsInt t
      → (p.idle ≤ evaluate_source th p (pos t)) × (evaluate_source th p (pos t) ≤ p.maximum)
  unfolding evaluate_source
  evaluate_source_bounds t h =
      ground
        (arith, interpolate_bounds first t, interpolate_bounds second t, interpolate_bounds third t)

  pub evaluate_source_mono :
      (t u : ℕ) → FitsInt u → t ≤ u → evaluate_source th p (pos t) ≤ evaluate_source th p (pos u)
  unfolding evaluate_source
  evaluate_source_mono t u h k = ground (
    arith,
    interpolate_bounds first t,
    interpolate_bounds first u,
    interpolate_mono first t u,
    interpolate_bounds second t,
    interpolate_bounds second u,
    interpolate_mono second t u,
    interpolate_bounds third t,
    interpolate_bounds third u,
    interpolate_mono third t u,
  )

  -- The curve passes through its points.
  pub evaluate_source_points :
      (evaluate_source th p (pos th.start) ≡ p.idle)
      × (evaluate_source th p (pos th.mid) ≡ p.mid)
      × (evaluate_source th p (pos th.full) ≡ p.full)
      × (evaluate_source th p (pos th.maximum) ≡ p.maximum)
  unfolding evaluate_source
  evaluate_source_points = (
    ground arith,
    ground (arith, interpolate_lem second th.mid),
    ground (arith, interpolate_lem third th.full),
    ground arith,
  )

module _ (c : FanCurveConfig) (sound : c.system_cpu_floor_enabled ≡ true → IsFloor c) where
  floor-IsSegment :
      c.system_cpu_floor_enabled ≡ true
      → IsSegment c.system_cpu_floor_start_celsius c.system_cpu_floor_end_celsius
          c.system_cpu_floor_start_pwm c.system_cpu_floor_end_pwm
  floor-IsSegment e = omega (arith, sound e)

  pub cpu_system_floor-le : (t : ℕ) → FitsInt t → cpu_system_floor c (pos t) ≤ 255
  unfolding cpu_system_floor
  cpu_system_floor-le t h = ground (
    arith,
    sound,
    λ (e : c.system_cpu_floor_enabled ≡ true). interpolate_bounds (floor-IsSegment e) t,
  )

  pub cpu_system_floor_mono :
      (t u : ℕ) → FitsInt u → t ≤ u → cpu_system_floor c (pos t) ≤ cpu_system_floor c (pos u)
  unfolding cpu_system_floor
  cpu_system_floor_mono t u h k = ground (
    arith,
    sound,
    λ (e : c.system_cpu_floor_enabled ≡ true). interpolate_bounds (floor-IsSegment e) t,
    λ (e : c.system_cpu_floor_enabled ≡ true). interpolate_bounds (floor-IsSegment e) u,
    λ (e : c.system_cpu_floor_enabled ≡ true). interpolate_mono (floor-IsSegment e) t u,
  )
