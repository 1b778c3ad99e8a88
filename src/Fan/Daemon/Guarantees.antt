-- ===== src/Fan/Daemon/Guarantees.antt =====
-- The daemon as a whole: enough cooling after every successful round, commands in range over any
-- run, and no command on a model without physical validation unless the configuration allows it.
use ugreen_nas_hardware.Prelude.{
  ℕ, ◌≤◌, ◌≡◌, ◌≢◌, ◌⊎◌, inl, inr, refl, arith, true, false, List, [], ◌∷◌, Result, ok, err, All,
  length, ◌||◌, ◌<◌, negsuc, eperm, sym, ap, ◌∙◌,
}
use mathlib.Core.Path.{subst}
use ugreen_nas_hardware.Fan.Curve.{FanCurveConfig, FanCurvePlan, ThermalSnapshot, plan_of}
use ugreen_nas_hardware.Fan.Config.Valid.{IsSafeCurve}
use ugreen_nas_hardware.Fan.Curve.Parts.{IsReading}
use ugreen_nas_hardware.Fan.Curve.Plan.{plan_of_bounds}
use ugreen_nas_hardware.Fan.Daemon.Hold.{PwmHoldState, new_hold}
use ugreen_nas_hardware.Fan.Daemon.Routes.{ModelRoute, FanTarget}
use ugreen_nas_hardware.Fan.Daemon.{
  DaemonPaths, launch_of, Tick, Round, StateReport, error, write_state, round_status,
  maximum_applied, applied_channels, or_failsafe, daemon_round, daemon_run, tick_plan,
}
use ugreen_nas_hardware.Fan.Daemon.Steps.{IsApplied, IsWrite}
use ugreen_nas_hardware.Fan.Daemon.Rounds.{
  AreCooled, update_targets_cooled, update_targets_range, update_targets_refused,
}

-- After a round whose writes all succeeded, every target of the model has a value applied that is
-- at least what the round's plan asks for its channel.
pub daemon_round_cools :
    (config : FanCurveConfig) (r : ModelRoute) (paths : DaemonPaths) (states : List PwmHoldState)
    (tick : Tick)
    → length r.targets ≤ length states
    → (daemon_round config r paths states tick).0.result ≡ ok tt
    → AreCooled
        (tick_plan config tick.reading).1
        r.targets
        (daemon_round config r paths states tick).0.states
unfolding daemon_round
daemon_round_cools config r paths states tick h e =
    update_targets_cooled (launch_of config paths) tick r.requires_force
      config.downshift_delay_seconds (tick_plan config tick.reading).1 0 r.targets states h e

abbrev IsBetween : ℕ → FanCurvePlan → Type 0
IsBetween lo plan =
    (lo ≤ plan.cpu_pwm) × (plan.cpu_pwm ≤ 255) × (lo ≤ plan.system_pwm) × (plan.system_pwm ≤ 255)

or_failsafe_bounds :
    (config : FanCurveConfig) (result : Result (Unit {0})) (plan : FanCurvePlan)
    → IsSafeCurve config
    → IsBetween config.minimum_pwm plan
    → IsBetween config.minimum_pwm (or_failsafe config (result, plan)).1
unfolding or_failsafe
or_failsafe_bounds config (ok tt) plan v h = h
or_failsafe_bounds config (err e) plan v h = omega arith

tick_plan_bounds :
    (config : FanCurveConfig) (result : Result (Unit {0})) (s : ThermalSnapshot)
    → IsSafeCurve config
    → IsReading s
    → IsBetween config.minimum_pwm (tick_plan config (result, s)).1
unfolding tick_plan
tick_plan_bounds config (err e) s v h = omega arith
tick_plan_bounds config (ok tt) s v h =
    or_failsafe_bounds config (plan_of config s).0 (plan_of config s).1 v
      (omega (arith, plan_of_bounds config v s h))

-- Three targets' states at the start.
unfoldable pub new_states : List PwmHoldState
unfolding new_hold
new_states = new_hold ∷ new_hold ∷ new_hold ∷ []

new_states-IsApplied : (lo : ℕ) → All (IsApplied lo) new_states
unfolding new_states
new_states-IsApplied lo = grind arith

abbrev pub AreReadings : List Tick → Type 0
AreReadings [] = Unit
AreReadings (tick ∷ ticks) = IsReading tick.reading.1 × AreReadings ticks

module _ (config : FanCurveConfig) (r : ModelRoute) (paths : DaemonPaths)
    (v : IsSafeCurve config) where
  daemon_round_range :
      (states : List PwmHoldState) (tick : Tick)
      → IsReading tick.reading.1
      → All (IsApplied config.minimum_pwm) states
      → All (IsApplied config.minimum_pwm) (daemon_round config r paths states tick).0.states
        × All
            (IsWrite
              (launch_of config paths)
              (r.requires_force || config.allow_unvalidated_writes)
              config.minimum_pwm)
            (daemon_round config r paths states tick).0.started
  unfolding daemon_round
  daemon_round_range states tick h a =
      update_targets_range (launch_of config paths) tick r.requires_force
        config.downshift_delay_seconds (tick_plan config tick.reading).1 config.minimum_pwm 0
        r.targets states (tick_plan_bounds config tick.reading.0 tick.reading.1 v h) a

  daemon_run-IsApplied :
      (states : List PwmHoldState) (ticks : List Tick)
      → AreReadings ticks
      → All (IsApplied config.minimum_pwm) states
      → All (IsApplied config.minimum_pwm) (daemon_run config r paths states ticks)
  unfolding daemon_run
  daemon_run-IsApplied states [] h a = a
  daemon_run-IsApplied states (tick ∷ ticks) h a =
      daemon_run-IsApplied (daemon_round config r paths states tick).0.states ticks h.1
        (daemon_round_range states tick h.0 a).0

  -- From the start of the daemon, after any rounds with any outcome, every applied value and every
  -- value that the next round hands to a child process lies between the configured minimum and
  -- 255, and each child process is a `fan set` command, with `--force` exactly where the model or
  -- the configuration calls for it.
  pub daemon_run_range :
      (ticks : List Tick) (tick : Tick)
      → AreReadings (tick ∷ ticks)
      → All (IsApplied config.minimum_pwm) (daemon_run config r paths new_states ticks)
        × All
            (IsWrite
              (launch_of config paths)
              (r.requires_force || config.allow_unvalidated_writes)
              config.minimum_pwm)
            (daemon_round config r paths
              (daemon_run config r paths new_states ticks)
              tick).0.started
  daemon_run_range ticks tick h =
      let states = daemon_run-IsApplied new_states ticks h.1 (new_states-IsApplied _) in
      (states, (daemon_round_range _ tick h.0 states).1)

-- The states, the result and the report of a round that the model does not allow.
pub record IsRefused (r : Round × StateReport) : Type 0 where
  pub states : r.0.states ≡ new_states
  pub none_started : r.0.started ≡ []
  pub result : r.0.result ≡ err eperm
  pub status : r.1.status ≡ error
  pub applied_cpu_pwm : r.1.applied_cpu_pwm ≡ negsuc 0
  pub applied_system_pwm : r.1.applied_system_pwm ≡ negsuc 0
  pub applied_pwm : r.1.applied_pwm ≡ negsuc 0

none_applied :
    (targets : List FanTarget)
    → applied_channels targets new_states (negsuc 0, negsuc 0) ≡ (negsuc 0, negsuc 0)
unfolding applied_channels new_states
none_applied [] = refl
none_applied (a ∷ []) = refl
none_applied (a ∷ b ∷ []) = refl
none_applied (a ∷ b ∷ c ∷ targets) = no_state targets
  where
    no_state :
        (ts : List FanTarget) → applied_channels ts [] (negsuc 0, negsuc 0) ≡ (negsuc 0, negsuc 0)
    no_state [] = refl
    no_state (t ∷ ts) = refl

round_of-IsRefused :
    (read : Result (Unit {0})) (plan : FanCurvePlan) (snapshot : ThermalSnapshot)
    (targets : List FanTarget) (round : Round)
    → round ≡ record { states = new_states; started = []; result = err eperm }
    → IsRefused (
      round,
      write_state plan snapshot
          (applied_channels targets round.states (negsuc 0, negsuc 0))
          (round_status read round.result),
    )
unfolding write_state round_status maximum_applied
round_of-IsRefused read plan snapshot targets round e =
    rw (e, none_applied targets)
      (record {
        states = refl;
        none_started = refl;
        result = refl;
        status = at_error read;
        applied_cpu_pwm = refl;
        applied_system_pwm = refl;
        applied_pwm = refl;
      })
  where
    at_error : (read : Result (Unit {0})) → round_status read (err eperm) ≡ error
    at_error (ok _) = refl
    at_error (err code) = refl

module _ (config : FanCurveConfig) (r : ModelRoute) (paths : DaemonPaths)
    (forced : r.requires_force ≡ true) (forbidden : config.allow_unvalidated_writes ≡ false)
    (some_target : 0 < length r.targets) where
  first_round-IsRefused : (tick : Tick) → IsRefused (daemon_round config r paths new_states tick)
  unfolding daemon_round new_states
  first_round-IsRefused tick =
      round_of-IsRefused (tick_plan config tick.reading).0 (tick_plan config tick.reading).1
        tick.reading.1 r.targets _
        (update_targets_refused (launch_of config paths) tick r.requires_force
          config.downshift_delay_seconds (tick_plan config tick.reading).1 0 r.targets
          (new_hold ∷ new_hold ∷ []) forced forbidden some_target)

  daemon_run_refused : (ticks : List Tick) → daemon_run config r paths new_states ticks ≡ new_states
  unfolding daemon_run
  daemon_run_refused [] = refl
  daemon_run_refused (tick ∷ ticks) =
      ap (λ states. daemon_run config r paths states ticks) (first_round-IsRefused tick).states
      ∙ daemon_run_refused ticks

  -- On a model that requires `--force`, with a configuration that does not allow unvalidated writes,
  -- whatever rounds went before since the start: a round starts no child process, ends with
  -- EPERM at the first target, reports an error with no value applied to any channel, and leaves the
  -- states as they were at the start.
  pub daemon_round_forbidden :
      (ticks : List Tick) (tick : Tick)
      → IsRefused (daemon_round config r paths (daemon_run config r paths new_states ticks) tick)
  daemon_round_forbidden ticks tick =
      subst (λ states. IsRefused (daemon_round config r paths states tick))
        (sym (daemon_run_refused ticks)) (first_round-IsRefused tick)

abbrev IsFailsafe : FanCurveConfig → FanCurvePlan → Type 0
IsFailsafe config plan =
    (plan.cpu_pwm ≡ config.failsafe_pwm) × (plan.system_pwm ≡ config.failsafe_pwm)

or_failsafe_err :
    (config : FanCurveConfig) (result : Result (Unit {0})) (plan : FanCurvePlan)
    → result ≢ ok tt
    → IsFailsafe config (or_failsafe config (result, plan)).1
unfolding or_failsafe
or_failsafe_err config (ok tt) plan h = absurd (h refl)
or_failsafe_err config (err e) plan h = (refl, refl)

tick_plan-IsFailsafe :
    (config : FanCurveConfig) (result : Result (Unit {0})) (s : ThermalSnapshot)
    → (result ≢ ok tt) ⊎ ((plan_of config s).0 ≢ ok tt)
    → IsFailsafe config (tick_plan config (result, s)).1
unfolding tick_plan
tick_plan-IsFailsafe config (err e) s h = (refl, refl)
tick_plan-IsFailsafe config (ok tt) s (inl h) = absurd (h refl)
tick_plan-IsFailsafe config (ok tt) s (inr h) =
    or_failsafe_err config (plan_of config s).0 (plan_of config s).1 h

-- Where the temperatures cannot be read, or give no plan, a round whose writes all succeeded
-- leaves every target of the model at the failsafe PWM or above.
pub daemon_round_failsafe :
    (config : FanCurveConfig) (r : ModelRoute) (paths : DaemonPaths) (states : List PwmHoldState)
    (tick : Tick)
    → length r.targets ≤ length states
    → (tick.reading.0 ≢ ok tt) ⊎ ((plan_of config tick.reading.1).0 ≢ ok tt)
    → (daemon_round config r paths states tick).0.result ≡ ok tt
    → AreCooled
        (record { cpu_pwm = config.failsafe_pwm; system_pwm = config.failsafe_pwm })
        r.targets
        (daemon_round config r paths states tick).0.states
daemon_round_failsafe config r paths states tick h f e =
    let (cpu, system) = tick_plan-IsFailsafe config tick.reading.0 tick.reading.1 f in
    subst (λ plan. AreCooled plan r.targets (daemon_round config r paths states tick).0.states)
      (λ i. record { cpu_pwm = cpu i; system_pwm = system i })
      (daemon_round_cools config r paths states tick h e)
