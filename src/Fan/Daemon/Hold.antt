-- ===== src/Fan/Daemon/Hold.antt =====
-- The hold on lower PWM values in core/fan_daemon.c: a value below the applied one waits until it
-- was asked for during the configured delay.
use ugreen_nas_hardware.Prelude.{ℕ, Bool, false, not, ◌||◌, ltb, leb, ◌==◌, if◌then◌else◌, sub64}

pub record PwmHoldState : Type 0 where
  pub applied_pwm : ℕ
  pub pending_lower_pwm : ℕ
  pub pending_since : ℕ  -- time_t
  pub applied_known : Bool

unfoldable pub new_hold : PwmHoldState
new_hold = record {
  applied_pwm = 0;
  pending_lower_pwm = 0;
  pending_since = 0;
  applied_known = false;
}

-- `now` is what `time(NULL)` gives, read only where a lower value is asked for.
unfoldable pub hold_lower_pwm : PwmHoldState → ℕ → ℕ → ℕ → PwmHoldState × ℕ
hold_lower_pwm state desired_pwm delay_seconds now =
    if not state.applied_known || leb state.applied_pwm desired_pwm
    then (record state { pending_lower_pwm = 0; pending_since = 0 }, desired_pwm)
    else let state' =
        if state.pending_lower_pwm == desired_pwm
        then state
        else record state { pending_lower_pwm = desired_pwm; pending_since = now } in
      if ltb (sub64 now state'.pending_since) delay_seconds
      then (state', state'.applied_pwm)
      else (state', desired_pwm)
