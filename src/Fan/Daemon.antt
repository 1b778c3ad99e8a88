-- ===== src/Fan/Daemon.antt =====
-- The fan daemon of core/fan_daemon.c: one round of its loop and the runs of the loop. The clock,
-- the temperatures and the child process that writes a PWM value are inputs.
pub mod Routes
pub mod Hold
pub mod Guarantees
pub mod Steps
pub mod Rounds
pub mod Patience
use ugreen_nas_hardware.Prelude.{
  ℕ, zero, suc, ◌+◌, Bool, true, false, not, ◌&&◌, ◌||◌, List, [], ◌∷◌, ◌++◌, Option, none, some,
  ltb, leb, ◌==◌, if◌then◌else◌, ℤ, pos, negsuc, is_negative, sub64, Bytes, codes, String, Result,
  ok, err, eperm,
}
use ugreen_nas_hardware.Prelude.Decimal.{decimal}
use ugreen_nas_hardware.Fan.Curve.{
  FanCurveConfig, ThermalSnapshot, FanCurvePlan, plan_of, maximum_of,
}
use Hold.{PwmHoldState, hold_lower_pwm}
use Routes.{FanChannel, channel_cpu, channel_system, FanTarget, ModelRoute}

abbrev pub desired_for_channel : FanChannel → FanCurvePlan → ℕ
desired_for_channel channel_cpu plan = plan.cpu_pwm
desired_for_channel channel_system plan = plan.system_pwm

unfoldable pub desired_for_target : FanTarget → FanCurvePlan → ℕ
desired_for_target target plan = desired_for_channel target.channel plan

-- The arguments of the child process.
unfoldable pub ugreenctl_argv : Bytes → Bytes → Bool → String → ℕ → List Bytes
ugreenctl_argv binary plugin_dir force target pwm =
    binary ∷ codes "--plugin-dir" ∷ plugin_dir ∷ (if force then codes "--force" ∷ [] else [])
    ++ codes "--apply" ∷ codes "fan" ∷ codes "set" ∷ codes target ∷ decimal pwm ∷ []

-- The paths that the daemon was started with.
pub record DaemonPaths : Type 0 where
  pub binary : Bytes
  pub plugin_dir : Bytes

-- The arguments `binary`, `plugin_dir` and `allow_unvalidated` of `apply_pwm`.
pub record Launch : Type 0 where
  pub binary : Bytes
  pub plugin_dir : Bytes
  pub allow_unvalidated : Bool

-- The permission to write on a model without physical validation is the configuration's.
abbrev pub launch_of : FanCurveConfig → DaemonPaths → Launch
launch_of config paths = record {
  binary = paths.binary;
  plugin_dir = paths.plugin_dir;
  allow_unvalidated = config.allow_unvalidated_writes;
}

-- One round's inputs: `spawn` is how the child process with these arguments ends, and `now` is the
-- clock when the target of this index is handled.
pub record Tick : Type 0 where
  pub reading : Result (Unit {0}) × ThermalSnapshot
  pub now : ℕ → ℕ
  pub spawn : List Bytes → Result (Unit {0})

-- The child processes started, and the result.
unfoldable pub apply_pwm :
    Launch
    → (List Bytes → Result (Unit {0}))
    → Bool
    → String
    → ℕ
    → List (List Bytes) × Result (Unit {0})
apply_pwm launch spawn requires_force target pwm =
    let force = requires_force || launch.allow_unvalidated in
    let argv = ugreenctl_argv launch.binary launch.plugin_dir force target pwm in
    if requires_force && not launch.allow_unvalidated
    then ([], err eperm)
    else (argv ∷ [], spawn argv)

-- After a write: the applied value is remembered only if the write succeeded.
unfoldable pub record_write : PwmHoldState → ℕ → Result (Unit {0}) → PwmHoldState
record_write state pwm (ok _) = record state { applied_pwm = pwm; applied_known = true }
record_write state pwm (err _) = state

pub record Written : Type 0 where
  pub state : PwmHoldState
  pub started : List (List Bytes)
  pub result : Result (Unit {0})

-- The body of the loop over the targets.
unfoldable pub step_target :
    Launch → (List Bytes → Result (Unit {0})) → Bool → String → PwmHoldState → ℕ → ℕ → ℕ → Written
step_target launch spawn requires_force target state desired delay now =
    let (held, target_pwm) = hold_lower_pwm state desired delay now in
    let (started, result) = apply_pwm launch spawn requires_force target target_pwm in
    if not held.applied_known || not (target_pwm == held.applied_pwm)
    then record { state = record_write held target_pwm result; started = started; result = result }
    else record { state = held; started = []; result = ok tt }

pub record Round : Type 0 where
  pub states : List PwmHoldState
  pub started : List (List Bytes)
  pub result : Result (Unit {0})

-- A failed write breaks out of the loop: the later targets are not touched.
unfoldable pub after_write : Written → List PwmHoldState → Round → Result (Unit {0}) → Round
after_write w states rest (ok _) = record {
  states = w.state ∷ rest.states;
  started = w.started ++ rest.started;
  result = rest.result;
}
after_write w states rest (err e) = record {
  states = w.state ∷ states;
  started = w.started;
  result = err e;
}

-- The loop over the targets and their states, from target `index` on.
unfoldable pub update_targets :
    Launch → Tick → Bool → ℕ → FanCurvePlan → ℕ → List FanTarget → List PwmHoldState → Round
unfolding step_target after_write
update_targets launch tick requires_force delay plan index (t ∷ ts) (state ∷ states) =
    let w =
      step_target launch tick.spawn requires_force t.name state (desired_for_target t plan) delay
        (tick.now index) in
    after_write w states
      (update_targets launch tick requires_force delay plan (index + 1) ts states) w.result
update_targets launch tick requires_force delay plan index _ states = record {
  states = states;
  started = [];
  result = ok tt;
}

unfoldable pub or_failsafe :
    FanCurveConfig → Result (Unit {0}) × FanCurvePlan → Result (Unit {0}) × FanCurvePlan
or_failsafe config (ok _, plan) = (ok tt, plan)
or_failsafe config (err e, plan) =
    (err e, record { cpu_pwm = config.failsafe_pwm; system_pwm = config.failsafe_pwm })

-- The plan of a round: without a reading, or without a plan for it, the failsafe PWM.
unfoldable pub tick_plan :
    FanCurveConfig → Result (Unit {0}) × ThermalSnapshot → Result (Unit {0}) × FanCurvePlan
tick_plan config (err e, snapshot) =
    (err e, record { cpu_pwm = config.failsafe_pwm; system_pwm = config.failsafe_pwm })
tick_plan config (ok _, snapshot) = or_failsafe config (plan_of config snapshot)

abbrev pub set_channel : FanChannel → ℤ → ℤ × ℤ → ℤ × ℤ
set_channel channel_cpu pwm (cpu, system) = (pwm, system)
set_channel channel_system pwm (cpu, system) = (cpu, pwm)

-- The last value applied to each channel, -1 for none.
unfoldable pub applied_channels : List FanTarget → List PwmHoldState → ℤ × ℤ → ℤ × ℤ
applied_channels (t ∷ ts) (state ∷ states) (cpu, system) = applied_channels ts states (
    if not state.applied_known
    then (cpu, system)
    else set_channel t.channel (pos state.applied_pwm) (cpu, system))
applied_channels _ _ channels = channels

unfoldable pub maximum_applied : ℤ → ℤ → ℤ
maximum_applied (negsuc _) system_pwm = system_pwm
maximum_applied (pos cpu) (negsuc _) = pos cpu
maximum_applied (pos cpu) (pos system) = if ltb system cpu then pos cpu else pos system

pub data Status : Type 0 where
  running failsafe error stopped : Status

-- What `write_state` puts into the state file, without the time stamp and the texts.
pub record StateReport : Type 0 where
  pub status : Status
  pub snapshot : ThermalSnapshot
  pub desired_pwm : ℕ
  pub applied_pwm : ℤ
  pub plan : FanCurvePlan
  pub applied_cpu_pwm : ℤ
  pub applied_system_pwm : ℤ

unfoldable pub write_state : FanCurvePlan → ThermalSnapshot → ℤ × ℤ → Status → StateReport
unfolding maximum_applied maximum_of
write_state plan snapshot (cpu, system) status = record {
  status = status;
  snapshot = snapshot;
  desired_pwm = maximum_of plan.cpu_pwm plan.system_pwm;
  applied_pwm = maximum_applied cpu system;
  plan = plan;
  applied_cpu_pwm = cpu;
  applied_system_pwm = system;
}

unfoldable pub round_status : Result (Unit {0}) → Result (Unit {0}) → Status
round_status (ok _) (ok _) = running
round_status (err _) (ok _) = failsafe
round_status _ (err _) = error

-- One round of the daemon's loop.
unfoldable pub daemon_round :
    FanCurveConfig → ModelRoute → DaemonPaths → List PwmHoldState → Tick → Round × StateReport
unfolding update_targets tick_plan applied_channels write_state round_status
daemon_round config r paths states tick =
    let (read, plan) = tick_plan config tick.reading in
    let result =
      update_targets (launch_of config paths) tick r.requires_force config.downshift_delay_seconds
        plan 0 r.targets states in
    (
      result,
      write_state plan tick.reading.1
          (applied_channels r.targets result.states (negsuc 0, negsuc 0))
          (round_status read result.result),
    )

-- The states after a run of rounds.
unfoldable pub daemon_run :
    FanCurveConfig → ModelRoute → DaemonPaths → List PwmHoldState → List Tick → List PwmHoldState
unfolding daemon_round
daemon_run config r paths states [] = states
daemon_run config r paths states (tick ∷ ticks) =
    daemon_run config r paths (daemon_round config r paths states tick).0.states ticks
