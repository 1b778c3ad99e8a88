-- ===== src/Fan/Daemon/Patience.antt =====
-- Over any run of calls whose clock is not set back, a lower PWM value is given only after it was
-- asked for, without a break, during the delay.
use ugreen_nas_hardware.Prelude.{
  ℕ, ◌+◌, ◌^◌, ◌≤◌, ◌<◌, ◌≡◌, ◌⊎◌, inl, inr, refl, sym, ◌∙◌, arith, Bytes, String, Bool, true, List,
  [], ◌∷◌, Result, ok, err, sub64,
}
use ugreen_nas_hardware.Fan.Daemon.Hold.{PwmHoldState, new_hold, hold_lower_pwm}
use ugreen_nas_hardware.Fan.Daemon.{Launch, Written, record_write, step_target}

-- One visit of a target: the clock, the value asked for and how the child process would end.
pub record Call : Type 0 where
  pub now : ℕ
  pub desired : ℕ
  pub spawn : List Bytes → Result (Unit {0})

module _ (launch : Launch) (requires_force : Bool) (target : String) (delay : ℕ) where
  unfoldable pub visit : PwmHoldState → Call → Written
  visit state call =
      step_target launch call.spawn requires_force target state call.desired delay call.now

  -- The state after a history of visits, the latest first.
  unfoldable pub after_visits : List Call → PwmHoldState
  after_visits [] = new_hold
  after_visits (call ∷ calls) = (visit (after_visits calls) call).state

-- `desired` was asked for at the time `since`, and by every call after that.
pub data IsHeld (desired since : ℕ) : List Call → Type 0 where
  began :
      {call : Call} {calls : List Call}
      → call.desired ≡ desired
      → call.now ≡ since
      → IsHeld desired since (call ∷ calls)
  kept :
      {call : Call} {calls : List Call}
      → call.desired ≡ desired
      → IsHeld desired since calls
      → IsHeld desired since (call ∷ calls)

abbrev pub AreDemands : List Call → Type 0
AreDemands [] = Unit
AreDemands (call ∷ calls) = (0 < call.desired) × AreDemands calls

-- The clock is not set back over the visits, and not after `now`.
abbrev pub IsForward : ℕ → List Call → Type 0
IsForward now [] = Unit
IsForward now (call ∷ calls) = (call.now ≤ now) × IsForward call.now calls

IsHeld-since :
    (desired since now : ℕ) (calls : List Call)
    → IsForward now calls
    → IsHeld desired since calls
    → since ≤ now
IsHeld-since desired since now [] f h = elim h [ ]
IsHeld-since desired since now (call ∷ calls) (f, fs) (began d s) = omega arith
IsHeld-since desired since now (call ∷ calls) (f, fs) (kept d h) =
    omega (arith, IsHeld-since desired since call.now calls fs h)

sub64-forward : (a b d : ℕ) → b ≤ a → a < 2 ^ 64 → d ≤ sub64 a b → b + d ≤ a
sub64-forward a b d h k e = omega arith

-- The pending value, if there is one, has been asked for since the pending time.
abbrev IsPending : PwmHoldState → List Call → Type 0
IsPending state calls =
    (state.pending_lower_pwm ≡ 0) ⊎ IsHeld state.pending_lower_pwm state.pending_since calls

record_write_pending :
    (s : PwmHoldState) (pwm : ℕ) (r : Result (Unit {0}))
    → ((record_write s pwm r).pending_lower_pwm ≡ s.pending_lower_pwm)
      × ((record_write s pwm r).pending_since ≡ s.pending_since)
unfolding record_write
record_write_pending s pwm (ok _) = (refl, refl)
record_write_pending s pwm (err e) = (refl, refl)

hold_cases :
    (s : PwmHoldState) (desired delay now : ℕ)
    → let s' = (hold_lower_pwm s desired delay now).0 in
      (s'.pending_lower_pwm ≡ 0)
      ⊎ (s'.pending_lower_pwm ≡ desired) × (s'.pending_since ≡ now)
      ⊎ (s'.pending_lower_pwm ≡ desired)
        × (s.pending_lower_pwm ≡ desired)
        × (s'.pending_since ≡ s.pending_since)
unfolding hold_lower_pwm
hold_cases s desired delay now = ground arith

hold_lower_pwm_keeps :
    (s : PwmHoldState) (desired delay now : ℕ)
    → let s' = (hold_lower_pwm s desired delay now).0 in
      (s'.applied_pwm ≡ s.applied_pwm) × (s'.applied_known ≡ s.applied_known)
unfolding hold_lower_pwm
hold_lower_pwm_keeps s desired delay now = ground arith

hold_lower_pwm_lower :
    (s : PwmHoldState) (desired delay now : ℕ)
    → s.applied_known ≡ true
    → (hold_lower_pwm s desired delay now).1 < s.applied_pwm
    → let (s', pwm) = hold_lower_pwm s desired delay now in
      (pwm ≡ desired) × (s'.pending_lower_pwm ≡ desired) × (delay ≤ sub64 now s'.pending_since)
unfolding hold_lower_pwm
hold_lower_pwm_lower s desired delay now known lower = ground arith

module _ (launch : Launch) (requires_force : Bool) (target : String) (delay : ℕ) where
  visit_pending :
      (s : PwmHoldState) (call : Call)
      → let held = (hold_lower_pwm s call.desired delay call.now).0 in
        let s' = (visit launch requires_force target delay s call).state in
        (s'.pending_lower_pwm ≡ held.pending_lower_pwm) × (s'.pending_since ≡ held.pending_since)
  unfolding visit step_target record_write
  visit_pending s call = ground arith

  visit_applied :
      (s : PwmHoldState) (call : Call)
      → let s' = (visit launch requires_force target delay s call).state in
        (s'.applied_pwm ≡ s.applied_pwm)
        ⊎ (s'.applied_pwm ≡ (hold_lower_pwm s call.desired delay call.now).1)
  unfolding visit step_target record_write
  visit_applied s call = ground (arith, hold_lower_pwm_keeps s call.desired delay call.now)

  hold-IsPending :
      (s : PwmHoldState) (call : Call) (calls : List Call)
      → 0 < call.desired
      → IsPending s calls
      → IsPending (hold_lower_pwm s call.desired delay call.now).0 (call ∷ calls)
  hold-IsPending s call calls d h = elim (hold_cases s call.desired delay call.now) [
    | inl none_pending ↦ inl none_pending
    | inr (inl (p, q)) ↦ inr (began (sym p) (sym q))
    | inr (inr (p, q, r)) ↦ elim h [
      | inl z ↦ absurd (omega arith)
      | inr held ↦ inr (rw (p, r) (kept refl (rw q at held)))
    ]
  ]

  after_visits-IsPending :
      (calls : List Call)
      → AreDemands calls
      → IsPending (after_visits launch requires_force target delay calls) calls
  unfolding after_visits
  after_visits-IsPending [] d = inl (unfold new_hold in refl)
  after_visits-IsPending (call ∷ calls) d =
      let s = after_visits launch requires_force target delay calls in
      rw ((visit_pending s call).0, (visit_pending s call).1)
        (hold-IsPending s call calls d.0 (after_visits-IsPending calls d.1))

  visit_held :
      (calls : List Call) (call : Call)
      → AreDemands (call ∷ calls)
      → (after_visits launch requires_force target delay calls).applied_known ≡ true
      → (visit launch requires_force target delay
          (after_visits launch requires_force target delay calls)
          call).state.applied_pwm
        < (after_visits launch requires_force target delay calls).applied_pwm
      → (since : ℕ) × ((after_visits launch requires_force target delay (call ∷ calls)).applied_pwm
          ≡ call.desired)
        × IsHeld call.desired since (call ∷ calls)
        × (delay ≤ sub64 call.now since)
  unfolding after_visits
  visit_held calls call d known lower =
      let s = after_visits launch requires_force target delay calls in
      let held = (hold_lower_pwm s call.desired delay call.now).0 in
      let same : (visit launch requires_force target delay s call).state.applied_pwm
          ≡ (hold_lower_pwm s call.desired delay call.now).1 =
        ground (arith, visit_applied s call) in
      let (p, q, r) = hold_lower_pwm_lower s call.desired delay call.now known (rw same at lower) in
      elim (hold-IsPending s call calls d.0 (after_visits-IsPending calls d.1)) [
        | inl z ↦ absurd (omega arith)
        | inr h ↦ (held.pending_since, same ∙ p, rw q at h, r)
      ]

  -- After any history of visits that asked for positive values and over which the clock was not set
  -- back, whatever the writes did: if a visit brings the applied value down, then it brings it to the
  -- value asked for, and that value was asked for, without a break, by every visit since one that lies
  -- at least the delay back.
  pub visit_patience :
      (calls : List Call) (call : Call)
      → AreDemands (call ∷ calls)
      → IsForward call.now calls
      → call.now < 2 ^ 64
      → (after_visits launch requires_force target delay calls).applied_known ≡ true
      → (visit launch requires_force target delay
          (after_visits launch requires_force target delay calls)
          call).state.applied_pwm
        < (after_visits launch requires_force target delay calls).applied_pwm
      → (since : ℕ) × ((after_visits launch requires_force target delay (call ∷ calls)).applied_pwm
          ≡ call.desired)
        × IsHeld call.desired since (call ∷ calls)
        × (since + delay ≤ call.now)
  visit_patience calls call d forward clock known lower =
      let (since, applied, held, elapsed) = visit_held calls call d known lower in
      let before : since ≤ call.now =
        IsHeld-since call.desired since call.now (call ∷ calls) (omega arith, forward) held in
      (since, applied, held, sub64-forward call.now since delay before clock elapsed)
