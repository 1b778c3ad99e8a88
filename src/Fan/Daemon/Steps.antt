-- ===== src/Fan/Daemon/Steps.antt =====
-- What the daemon does to one target.
use ugreen_nas_hardware.Prelude.{
  ℕ, ◌≤◌, ◌≡◌, ◌⊎◌, inl, inr, refl, arith, Bool, true, List, [], ◌∷◌, Result, ok, Bytes, String,
  All, ◌||◌,
}
use ugreen_nas_hardware.Fan.Daemon.Hold.{PwmHoldState, hold_lower_pwm}
use ugreen_nas_hardware.Fan.Daemon.{Launch, ugreenctl_argv, apply_pwm, record_write, step_target}

-- An applied value lies between the minimum and 255.
abbrev pub IsApplied : ℕ → PwmHoldState → Type 0
IsApplied lo s =
    (s.applied_known ≡ true → lo ≤ s.applied_pwm) × (s.applied_known ≡ true → s.applied_pwm ≤ 255)

-- A child process that sets a target to a PWM value between the minimum and 255.
abbrev pub IsWrite : Launch → Bool → ℕ → List Bytes → Type 0
IsWrite launch force lo argv =
    (target : String) × (pwm : ℕ) × (argv
      ≡ ugreenctl_argv launch.binary launch.plugin_dir force target pwm)
    × (lo ≤ pwm)
    × (pwm ≤ 255)

pub hold_range :
    (s : PwmHoldState) (desired delay now : ℕ)
    → let (s', pwm) = hold_lower_pwm s desired delay now in
      (s'.applied_pwm ≡ s.applied_pwm)
      × (s'.applied_known ≡ s.applied_known)
      × (desired ≤ pwm)
      × ((pwm ≡ desired) ⊎ (s.applied_known ≡ true) × (pwm ≡ s.applied_pwm))
unfolding hold_lower_pwm
hold_range s desired delay now = (ground arith, ground arith, ground arith, ground arith)

module _ (launch : Launch) (spawn : List Bytes → Result (Unit {0})) (requires_force : Bool)
    (target : String) (s : PwmHoldState) (desired delay now : ℕ) where
  pub step_target_cooled :
      let w = step_target launch spawn requires_force target s desired delay now in
      w.result ≡ ok tt → (w.state.applied_known ≡ true) × (desired ≤ w.state.applied_pwm)
  unfolding step_target record_write
  step_target_cooled h = ground (arith, hold_range s desired delay now)

  pub step_target-IsApplied :
      (lo : ℕ)
      → IsApplied lo s
      → lo ≤ desired
      → desired ≤ 255
      → IsApplied lo (step_target launch spawn requires_force target s desired delay now).state
  unfolding step_target record_write
  step_target-IsApplied lo h l u = ground (arith, hold_range s desired delay now)

  pub step_target_started :
      let w = step_target launch spawn requires_force target s desired delay now in
      (w.started ≡ [])
      ⊎ (w.started
          ≡ ugreenctl_argv launch.binary launch.plugin_dir
              (requires_force || launch.allow_unvalidated)
              target
              (hold_lower_pwm s desired delay now).1
            ∷ [])
  unfolding step_target apply_pwm
  step_target_started = ground arith

  pub step_target_writes :
      (lo : ℕ)
      → IsApplied lo s
      → lo ≤ desired
      → desired ≤ 255
      → All
          (IsWrite launch (requires_force || launch.allow_unvalidated) lo)
          (step_target launch spawn requires_force target s desired delay now).started
  step_target_writes lo h l u = elim step_target_started [
    | inl none_started ↦ rw none_started tt
    | inr one_started ↦ rw one_started (
      (
        target,
        (hold_lower_pwm s desired delay now).1,
        refl,
        ground (arith, hold_range s desired delay now),
        ground (arith, hold_range s desired delay now),
      ),
      tt,
    )
  ]
