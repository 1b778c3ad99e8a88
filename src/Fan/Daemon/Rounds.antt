-- ===== src/Fan/Daemon/Rounds.antt =====
-- What one round of the daemon guarantees.
use ugreen_nas_hardware.Prelude.{
  ℕ, suc, ◌+◌, ◌≤◌, ◌≡◌, refl, ap, arith, Bool, true, false, List, [], ◌∷◌, ◌++◌, Result, Errno, ok,
  err, eperm, ◌<◌, Bytes, All, length, ◌||◌,
}
use ugreen_nas_hardware.Fan.Curve.{FanCurvePlan}
use ugreen_nas_hardware.Fan.Daemon.Hold.{PwmHoldState, new_hold, hold_lower_pwm}
use ugreen_nas_hardware.Fan.Daemon.Routes.{FanTarget}
use ugreen_nas_hardware.Fan.Daemon.{
  Launch, Tick, Written, Round, desired_for_target, step_target, after_write, update_targets,
  apply_pwm, record_write,
}
use ugreen_nas_hardware.Fan.Daemon.Steps.{
  IsApplied, IsWrite, step_target_cooled, step_target-IsApplied, step_target_writes,
}

-- Each target has a value applied that is at least what the plan asks for its channel.
abbrev pub AreCooled : FanCurvePlan → List FanTarget → List PwmHoldState → Type 0
AreCooled plan [] states = Unit
AreCooled plan (t ∷ ts) [] = ⊥
AreCooled plan (t ∷ ts) (s ∷ states) =
    (s.applied_known ≡ true)
    × (desired_for_target t plan ≤ s.applied_pwm)
    × AreCooled plan ts states

module _ {ℓ κ} {A : Type ℓ} (P : A → Type κ) where
  All-append : (xs ys : List A) → All P xs → All P ys → All P (xs ++ ys)
  All-append [] ys h k = k
  All-append (x ∷ xs) ys h k = (h.0, All-append xs ys h.1 k)

-- A fact about the states after a target holds if the write holds for it and the rest for the rest.
module _ {κ} (P : List PwmHoldState → List (List Bytes) → Result (Unit {0}) → Type κ) (w : Written)
    (states : List PwmHoldState) (rest : Round) where
  after_write_cases :
      (r : Result (Unit {0}))
      → (r ≡ ok tt → P (w.state ∷ rest.states) (w.started ++ rest.started) rest.result)
      → ((e : Errno) → r ≡ err e → P (w.state ∷ states) w.started (err e))
      → P
          (after_write w states rest r).states
          (after_write w states rest r).started
          (after_write w states rest r).result
  unfolding after_write
  after_write_cases (ok tt) a b = a refl
  after_write_cases (err e) a b = b e refl

module _ (launch : Launch) (tick : Tick) (requires_force : Bool) (delay : ℕ)
    (plan : FanCurvePlan) where
  -- What the loop does to its first target.
  first_write : ℕ → FanTarget → PwmHoldState → Written
  first_write index t s =
      step_target launch tick.spawn requires_force t.name s (desired_for_target t plan) delay
        (tick.now index)

  pub update_targets_cooled :
      (index : ℕ) (ts : List FanTarget) (states : List PwmHoldState)
      → length ts ≤ length states
      → (update_targets launch tick requires_force delay plan index ts states).result ≡ ok tt
      → AreCooled plan ts
          (update_targets launch tick requires_force delay plan index ts states).states
  unfolding update_targets first_write
  update_targets_cooled index [] states h = λ e. tt
  update_targets_cooled index (t ∷ ts) [] h = absurd (omega arith)
  update_targets_cooled index (t ∷ ts) (s ∷ states) h =
      after_write_cases (λ ss _ r. r ≡ ok tt → AreCooled plan (t ∷ ts) ss) (first_write index t s)
        states (update_targets launch tick requires_force delay plan (index + 1) ts states)
        (first_write index t s).result
        (λ e k.
          let (known, enough) =
            step_target_cooled launch tick.spawn requires_force t.name s (desired_for_target t plan)
              delay (tick.now index) e in
          (known, enough, update_targets_cooled (index + 1) ts states (omega arith) k))
        (λ x _ k. cc)

  first_write-IsApplied :
      (lo index : ℕ) (t : FanTarget) (s : PwmHoldState)
      → IsApplied lo s
      → (lo ≤ plan.cpu_pwm)
        × (plan.cpu_pwm ≤ 255)
        × (lo ≤ plan.system_pwm)
        × (plan.system_pwm ≤ 255)
      → (lo ≤ desired_for_target t plan) × (desired_for_target t plan ≤ 255)
  unfolding desired_for_target
  first_write-IsApplied lo index t s a b = ground arith

  -- Applied values and child processes stay in range through the loop.
  pub update_targets_range :
      (lo index : ℕ) (ts : List FanTarget) (states : List PwmHoldState)
      → (lo ≤ plan.cpu_pwm)
        × (plan.cpu_pwm ≤ 255)
        × (lo ≤ plan.system_pwm)
        × (plan.system_pwm ≤ 255)
      → All (IsApplied lo) states
      → All
          (IsApplied lo)
          (update_targets launch tick requires_force delay plan index ts states).states
        × All
            (IsWrite launch (requires_force || launch.allow_unvalidated) lo)
            (update_targets launch tick requires_force delay plan index ts states).started
  unfolding update_targets first_write
  update_targets_range lo index [] states b h = (h, tt)
  update_targets_range lo index (t ∷ ts) [] b h = (tt, tt)
  update_targets_range lo index (t ∷ ts) (s ∷ states) b h =
      let (low, high) = first_write-IsApplied lo index t s h.0 b in
      let state =
        step_target-IsApplied launch tick.spawn requires_force t.name s (desired_for_target t plan)
          delay (tick.now index) lo h.0 low high in
      let writes =
        step_target_writes launch tick.spawn requires_force t.name s (desired_for_target t plan)
          delay (tick.now index) lo h.0 low high in
      let (states', writes') = update_targets_range lo (index + 1) ts states b h.1 in
      after_write_cases
        (λ ss started _.
          All (IsApplied lo) ss
          × All (IsWrite launch (requires_force || launch.allow_unvalidated) lo) started)
        (first_write index t s) states
        (update_targets launch tick requires_force delay plan (index + 1) ts states)
        (first_write index t s).result (λ _. ((state, states'), All-append _ _ _ writes writes'))
        (λ _ _. ((state, h.1), writes))

  -- At the start, the first target is refused and the rest is left alone.
  pub update_targets_refused :
      (index : ℕ) (ts : List FanTarget) (states : List PwmHoldState)
      → requires_force ≡ true
      → launch.allow_unvalidated ≡ false
      → 0 < length ts
      → update_targets launch tick requires_force delay plan index ts (new_hold ∷ states)
        ≡ record { states = new_hold ∷ states; started = []; result = err eperm }
  unfolding update_targets after_write step_target apply_pwm record_write hold_lower_pwm new_hold
  update_targets_refused index [] states f a h = absurd (omega arith)
  update_targets_refused index (t ∷ ts) states f a h = rw (f, a) refl

  pub length-update_targets :
      (index : ℕ) (ts : List FanTarget) (states : List PwmHoldState)
      → length (update_targets launch tick requires_force delay plan index ts states).states
        ≡ length states
  unfolding update_targets first_write
  length-update_targets index [] states = refl
  length-update_targets index (t ∷ ts) [] = refl
  length-update_targets index (t ∷ ts) (s ∷ states) =
      after_write_cases (λ ss _ _. length ss ≡ suc (length states)) (first_write index t s) states
        (update_targets launch tick requires_force delay plan (index + 1) ts states)
        (first_write index t s).result (λ _. ap suc (length-update_targets (index + 1) ts states))
        (λ _ _. refl)
