-- ===== src/Fan/Config/Valid.antt =====
-- What the check of a configuration means, as orders between its numbers.
use ugreen_nas_hardware.Prelude.{ℕ, ◌≤◌, ◌<◌, true, false, some, ◌≡◌, ◌↔◌, arith, ok}
use ugreen_nas_hardware.Fan.Curve.{
  CurveThresholds, CurvePwmPoints, FanCurveConfig, thermal_max_celsius,
}
use ugreen_nas_hardware.Fan.Config.{
  profile_is_valid, valid_thresholds, valid_pwm_points, timing_out_of_range, floor_out_of_range,
  curve_out_of_range, validate_config,
}

-- The five temperatures rise strictly, up to 125.
pub record IsRising (t : CurveThresholds) : Type 0 where
  pub stop_start : t.stop < t.start
  pub start_mid : t.start < t.mid
  pub mid_full : t.mid < t.full
  pub full_maximum : t.full < t.maximum
  pub capped : t.maximum ≤ thermal_max_celsius

-- The four PWM values do not fall, from the minimum up to 255.
pub record IsOrdered (p : CurvePwmPoints) (minimum_pwm : ℕ) : Type 0 where
  pub floored : minimum_pwm ≤ p.idle
  pub idle_mid : p.idle ≤ p.mid
  pub mid_full : p.mid ≤ p.full
  pub full_maximum : p.full ≤ p.maximum
  pub capped : p.maximum ≤ 255

pub record IsFloor (c : FanCurveConfig) : Type 0 where
  pub start_end : c.system_cpu_floor_start_celsius < c.system_cpu_floor_end_celsius
  pub celsius_capped : c.system_cpu_floor_end_celsius ≤ thermal_max_celsius
  pub floored : c.minimum_pwm ≤ c.system_cpu_floor_start_pwm
  pub start_end_pwm : c.system_cpu_floor_start_pwm ≤ c.system_cpu_floor_end_pwm
  pub capped : c.system_cpu_floor_end_pwm ≤ 255

pub record IsTimed (c : FanCurveConfig) : Type 0 where
  pub interval_low : 2 ≤ c.interval_seconds
  pub interval_high : c.interval_seconds ≤ 300
  pub downshift_high : c.downshift_delay_seconds ≤ 3600

pub record IsSafeCurve (c : FanCurveConfig) : Type 0 where
  pub minimum_low : 40 ≤ c.minimum_pwm
  pub minimum_failsafe : c.minimum_pwm ≤ c.failsafe_pwm
  pub failsafe_high : c.failsafe_pwm ≤ 255
  pub pwm_ordered : IsOrdered c.pwm c.minimum_pwm
  pub system_ordered : IsOrdered c.system_pwm c.minimum_pwm
  pub cpu_ordered : IsOrdered c.cpu_pwm c.minimum_pwm
  pub cpu_rising : IsRising c.cpu
  pub hdd_rising : c.hdd_curve_enabled ≡ true → IsRising c.hdd
  pub ssd_rising : c.ssd_curve_enabled ≡ true → IsRising c.ssd
  pub floor_sound : c.system_cpu_floor_enabled ≡ true → IsFloor c

pub valid_thresholds_iff : (t : CurveThresholds) → (valid_thresholds t ≡ true) ↔ IsRising t
unfolding valid_thresholds
valid_thresholds_iff t = (λ h. ground arith, λ h. ground arith)

pub valid_pwm_points_iff :
    (p : CurvePwmPoints) (m : ℕ) → (valid_pwm_points p m ≡ true) ↔ IsOrdered p m
unfolding valid_pwm_points
valid_pwm_points_iff p m = (λ h. ground arith, λ h. ground arith)

floor_out_of_range_iff : (c : FanCurveConfig) → (floor_out_of_range c ≡ false) ↔ IsFloor c
unfolding floor_out_of_range
floor_out_of_range_iff c = (λ h. ground arith, λ h. ground arith)

timing_out_of_range_iff : (c : FanCurveConfig) → (timing_out_of_range c ≡ false) ↔ IsTimed c
unfolding timing_out_of_range
timing_out_of_range_iff c = (λ h. ground arith, λ h. ground arith)

-- What the check decides, with the parts decided already.
record AreSound (c : FanCurveConfig) : Type 0 where
  minimum_low : 40 ≤ c.minimum_pwm
  minimum_failsafe : c.minimum_pwm ≤ c.failsafe_pwm
  failsafe_high : c.failsafe_pwm ≤ 255
  pwm_ordered : valid_pwm_points c.pwm c.minimum_pwm ≡ true
  system_ordered : valid_pwm_points c.system_pwm c.minimum_pwm ≡ true
  cpu_ordered : valid_pwm_points c.cpu_pwm c.minimum_pwm ≡ true
  cpu_rising : valid_thresholds c.cpu ≡ true
  hdd_rising : c.hdd_curve_enabled ≡ true → valid_thresholds c.hdd ≡ true
  ssd_rising : c.ssd_curve_enabled ≡ true → valid_thresholds c.ssd ≡ true
  floor_sound : c.system_cpu_floor_enabled ≡ true → floor_out_of_range c ≡ false

curve_out_of_range-AreSound : (c : FanCurveConfig) → curve_out_of_range c ≡ false → AreSound c
unfolding curve_out_of_range
curve_out_of_range-AreSound c h = ground arith

AreSound-curve_out_of_range : (c : FanCurveConfig) → AreSound c → curve_out_of_range c ≡ false
unfolding curve_out_of_range
AreSound-curve_out_of_range c h = ground arith

AreSound-IsSafeCurve : (c : FanCurveConfig) → AreSound c → IsSafeCurve c
AreSound-IsSafeCurve c h = record {
  minimum_low = h.minimum_low;
  minimum_failsafe = h.minimum_failsafe;
  failsafe_high = h.failsafe_high;
  pwm_ordered = (valid_pwm_points_iff _ _).0 h.pwm_ordered;
  system_ordered = (valid_pwm_points_iff _ _).0 h.system_ordered;
  cpu_ordered = (valid_pwm_points_iff _ _).0 h.cpu_ordered;
  cpu_rising = (valid_thresholds_iff _).0 h.cpu_rising;
  hdd_rising = λ e. (valid_thresholds_iff _).0 (h.hdd_rising e);
  ssd_rising = λ e. (valid_thresholds_iff _).0 (h.ssd_rising e);
  floor_sound = λ e. (floor_out_of_range_iff c).0 (h.floor_sound e);
}

IsSafeCurve-AreSound : (c : FanCurveConfig) → IsSafeCurve c → AreSound c
IsSafeCurve-AreSound c h = record {
  minimum_low = h.minimum_low;
  minimum_failsafe = h.minimum_failsafe;
  failsafe_high = h.failsafe_high;
  pwm_ordered = (valid_pwm_points_iff _ _).1 h.pwm_ordered;
  system_ordered = (valid_pwm_points_iff _ _).1 h.system_ordered;
  cpu_ordered = (valid_pwm_points_iff _ _).1 h.cpu_ordered;
  cpu_rising = (valid_thresholds_iff _).1 h.cpu_rising;
  hdd_rising = λ e. (valid_thresholds_iff _).1 (h.hdd_rising e);
  ssd_rising = λ e. (valid_thresholds_iff _).1 (h.ssd_rising e);
  floor_sound = λ e. (floor_out_of_range_iff c).1 (h.floor_sound e);
}

-- What a configuration in use satisfies.
pub record IsValid (c : FanCurveConfig) : Type 0 where
  pub known : profile_is_valid c.profile ≡ true
  pub timed : IsTimed c
  pub safe : IsSafeCurve c

record Passes (c : FanCurveConfig) : Type 0 where
  known : profile_is_valid c.profile ≡ true
  timed : timing_out_of_range c ≡ false
  safe : curve_out_of_range c ≡ false

validate_config-Passes : (c : FanCurveConfig) → validate_config (some c) ≡ ok tt → Passes c
unfolding validate_config
validate_config-Passes c h = ground arith

Passes-validate_config : (c : FanCurveConfig) → Passes c → validate_config (some c) ≡ ok tt
unfolding validate_config
Passes-validate_config c h = ground arith

-- A configuration passes the check exactly when its profile is known, its two delays are in
-- range, its PWM points are ordered between the minimum and 255, its CPU temperatures and those
-- of the enabled storage curves rise strictly up to 125, and an enabled CPU floor is sound.
pub validate_config_iff : (c : FanCurveConfig) → (validate_config (some c) ≡ ok tt) ↔ IsValid c
validate_config_iff c = (
  λ h.
      let p = validate_config-Passes c h in
      record {
        known = p.known;
        timed = (timing_out_of_range_iff c).0 p.timed;
        safe = AreSound-IsSafeCurve c (curve_out_of_range-AreSound c p.safe);
      },
  λ v. Passes-validate_config c (record {
    known = v.known;
    timed = (timing_out_of_range_iff c).1 v.timed;
    safe = AreSound-curve_out_of_range c (IsSafeCurve-AreSound c v.safe);
  }),
)
