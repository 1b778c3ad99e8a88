-- ===== src/Fan/Config/Stock.antt =====
-- Every stock profile yields a configuration that is safe to use.
use ugreen_nas_hardware.Prelude.{◌≤◌, some, true, false, ◌≡◌, refl, arith, ok, str_is}
use ugreen_nas_hardware.Fan.Curve.{FanCurveConfig}
use ugreen_nas_hardware.Fan.Config.{profile_is_valid, apply_stock_profile, validate_config}
use ugreen_nas_hardware.Fan.Config.Valid.{IsTimed, IsSafeCurve, validate_config_iff}

apply_stock_profile-IsSafeCurve :
    (c : FanCurveConfig)
    → profile_is_valid c.profile ≡ true
    → str_is c.profile "custom" ≡ false
    → 40 ≤ c.failsafe_pwm
    → c.failsafe_pwm ≤ 255
    → IsSafeCurve (apply_stock_profile c)
unfolding profile_is_valid apply_stock_profile
apply_stock_profile-IsSafeCurve c k n lo hi = ground arith

apply_stock_profile-timing :
    (c : FanCurveConfig)
    → ((apply_stock_profile c).profile ≡ c.profile)
      × ((apply_stock_profile c).interval_seconds ≡ c.interval_seconds)
      × ((apply_stock_profile c).downshift_delay_seconds ≡ c.downshift_delay_seconds)
      × ((apply_stock_profile c).failsafe_pwm ≡ c.failsafe_pwm)
unfolding apply_stock_profile
apply_stock_profile-timing c = ground arith

-- A known profile other than `custom`, with delays in range and a failsafe PWM from 40 to 255,
-- passes the check once its stock values are applied; the profile's name, the delays and the
-- failsafe PWM stay what they were, and the shared points are the system channel's.
pub apply_stock_profile-IsValid :
    (c : FanCurveConfig)
    → profile_is_valid c.profile ≡ true
    → str_is c.profile "custom" ≡ false
    → IsTimed c
    → 40 ≤ c.failsafe_pwm
    → c.failsafe_pwm ≤ 255
    → let c' = apply_stock_profile c in
      (validate_config (some c') ≡ ok tt)
      × (c'.profile ≡ c.profile)
      × (c'.interval_seconds ≡ c.interval_seconds)
      × (c'.downshift_delay_seconds ≡ c.downshift_delay_seconds)
      × (c'.failsafe_pwm ≡ c.failsafe_pwm)
      × (c'.pwm ≡ c'.system_pwm)
apply_stock_profile-IsValid c k n t lo hi =
    let (p, i, d, f) = apply_stock_profile-timing c in
    (
      (validate_config_iff (apply_stock_profile c)).1 (record {
        known = rw p k;
        timed = record {
          interval_low = rw i t.interval_low;
          interval_high = rw i t.interval_high;
          downshift_high = rw d t.downshift_high;
        };
        safe = apply_stock_profile-IsSafeCurve c k n lo hi;
      }),
      p,
      i,
      d,
      f,
      unfold apply_stock_profile in refl,
    )
