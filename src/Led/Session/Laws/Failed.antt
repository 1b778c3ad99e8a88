-- ===== src/Led/Session/Laws/Failed.antt =====
-- On the sessions of an N76 after a failed transaction.
use ugreen_nas_hardware.Prelude.{
  ℕ, ◌≡◌, refl, ap, Bool, true, false, List, [], ◌∷◌, Option, if◌then◌else◌, Result, ok, err,
  and_then, Errno, einval, eio, enotsup,
}
use ugreen_nas_hardware.Led.Types.{LedValue, LedPatch}
use ugreen_nas_hardware.Led.Patch.{validate_target_patch}
use ugreen_nas_hardware.Led.N76.{N76Plan}
use ugreen_nas_hardware.Led.Session.{
  LedIo, LedSession, LedWorld, LedEvent, call, verify_session_identity, authorize_protocol,
  authorize_write, note_authorized, check_access, chip_matches, session_target,
}
use ugreen_nas_hardware.Led.Session.Read.{is_missing}
use ugreen_nas_hardware.Led.Session.Write.{
  run_commands, final_modes, mark_failure, run_plan, led_apply,
}
use ugreen_nas_hardware.Led.Session.Laws.{IsApart, call-keeps, verify_session_identity-keeps}

-- An error that leaves a part of the world as it was before.
unfoldable pub Refused : {S W A : Type 0} → (S → List W) → List W → Result A × S → Type 0
Refused part before (err e, s) = part s ≡ before
Refused part before (ok a, s) = ⊥

Refused-err :
    {S W A : Type 0} (part : S → List W) (before : List W) (r : Result A × S)
    → Refused part before r
    → (code : Errno) × (r.0 ≡ err code) × (part r.1 ≡ before)
unfolding Refused
Refused-err part before (err e, s) h = (e, refl, h)
Refused-err part before (ok a, s) h = absurd h

Refused-first :
    {S W A B : Type 0} (part : S → List W) (before : List W) (r : Result A × S)
    (next : A → S → Result B × S)
    → Refused part before r
    → Refused part before (and_then r next)
unfolding Refused
Refused-first part before (err e, s) next h = h
Refused-first part before (ok a, s) next h = absurd h

Refused-then :
    {S W A B : Type 0} (part : S → List W) (before : List W) (r : Result A × S)
    (next : A → S → Result B × S)
    → part r.1 ≡ before
    → ((a : A) (s : S) → part s ≡ before → Refused part before (next a s))
    → Refused part before (and_then r next)
unfolding Refused
Refused-then part before (err e, s) next h k = h
Refused-then part before (ok a, s) next h k = k a s h

Refused-if :
    {S W A : Type 0} (part : S → List W) (before : List W) (test : Bool) (a b : Result A × S)
    → Refused part before a
    → Refused part before b
    → Refused part before (if test then a else b)
Refused-if part before true a b h k = h
Refused-if part before false a b h k = k

Refused-when :
    {S W A : Type 0} (part : S → List W) (before : List W) (test : Bool) (a b : Result A × S)
    → test ≡ true
    → Refused part before a
    → Refused part before (if test then a else b)
Refused-when part before true a b e h = h
Refused-when part before false a b e h = cc

Refused-here :
    {S W : Type 0} (A : Type 0) (part : S → List W) (before : List W) (e : Errno) (s : S)
    → part s ≡ before
    → Refused {A = A} part before (err e, s)
unfolding Refused
Refused-here A part before e s h = h

-- The events, and the mark.
abbrev state_of : {Mcu : Type 0} → LedWorld Mcu → List (List LedEvent × Bool)
state_of w = (w.events, w.n76_failed) ∷ []

state_of-IsApart : {Mcu : Type 0} → IsApart (state_of {Mcu = Mcu})
state_of-IsApart = record { at_call = λ w mcu. refl }

abbrev first_mark : List (List LedEvent × Bool) → Bool
first_mark [] = false
first_mark ((events, mark) ∷ rest) = mark

abbrev first_events : List (List LedEvent × Bool) → List LedEvent
first_events [] = []
first_events ((events, mark) ∷ rest) = events

abbrev marked : List LedEvent → List (List LedEvent × Bool)
marked events = (events, true) ∷ []

module _ {Mcu : Type 0} (io : LedIo Mcu) (s : LedSession) (events : List LedEvent)
    (direct : s.access.n76_direct ≡ true) where
  authorize_protocol-Refused :
      (w : LedWorld Mcu)
      → state_of w ≡ marked events
      → Refused state_of (marked events) (authorize_protocol io s w)
  unfolding authorize_protocol Refused
  authorize_protocol-Refused w h =
      Refused-when state_of (marked events) s.access.n76_direct _ _ direct (
        Refused-when state_of (marked events) w.n76_failed _ _ (ap first_mark h)
          (Refused-here (Unit {0}) state_of (marked events) eio w h))

  note_authorized-Refused :
      (r : Result (Unit {0}) × LedWorld Mcu)
      → Refused state_of (marked events) r
      → Refused state_of (marked events) (note_authorized r)
  unfolding Refused
  note_authorized-Refused (err e, w) h = h
  note_authorized-Refused (ok a, w) h = absurd h

  authorize_write-Refused :
      (w : LedWorld Mcu)
      → state_of w ≡ marked events
      → Refused state_of (marked events) (authorize_write io s w)
  unfolding authorize_write
  authorize_write-Refused w h = note_authorized-Refused _ (
      Refused-then state_of (marked events) (check_access s, w) _ h
        (λ _ w₁ h₁.
          Refused-then state_of (marked events) (verify_session_identity io s w₁) _
            (verify_session_identity-keeps state_of state_of-IsApart io s (marked events) w₁ h₁)
            (λ _ w₂ h₂.
              Refused-then state_of (marked events) (call io.owners w₂) _
                (call-keeps state_of state_of-IsApart io s io.owners (marked events) w₂ h₂)
                (λ _ w₃ h₃.
                  let h₄ =
                    call-keeps state_of state_of-IsApart io s io.read_chip_id (marked events) w₃
                      h₃ in
                  Refused-if state_of (marked events) (chip_matches s (call io.read_chip_id w₃).0) _
                    _ (authorize_protocol-Refused _ h₄)
                    (Refused-here (Unit {0}) state_of (marked events) enotsup _ h₄)))))

  led_apply-Refused :
      (id : ℕ) (p : Option LedPatch) (held : Option LedValue) (w : LedWorld Mcu)
      → state_of w ≡ marked events
      → Refused state_of (marked events) (led_apply io s id p held w)
  unfolding led_apply
  led_apply-Refused id p held w h =
      Refused-if state_of (marked events) (is_missing (session_target s id)) _ _
        (Refused-here LedValue state_of (marked events) einval w h)
        (Refused-then state_of (marked events) (validate_target_patch (session_target s id) p, w) _
          h
          (λ _ w₁ h₁.
            Refused-first state_of (marked events) (authorize_write io s w₁) _
              (authorize_write-Refused w₁ h₁)))

mark_failure-failed :
    {Mcu : Type 0} (r : Result LedValue × LedWorld Mcu) (e : Errno)
    → (mark_failure r).0 ≡ err e
    → (mark_failure r).1.n76_failed ≡ true
mark_failure-failed (ok value, w) e h = cc
mark_failure-failed (err code, w) e h = refl

-- Once the writes of a plan have ended with an error, every further request on that session of an N76
-- is refused: it writes nothing, no authorization is given, and the session stays marked.
pub run_plan-failed :
    {Mcu : Type 0} (io : LedIo Mcu) (s : LedSession) (id : ℕ) (plan : N76Plan) (w : LedWorld Mcu)
    (e : Errno) (id' : ℕ) (p : Option LedPatch) (held : Option LedValue)
    → s.access.n76_direct ≡ true
    → (run_plan io s id plan w).0 ≡ err e
    → (code : Errno) × ((led_apply io s id' p held (run_plan io s id plan w).1).0 ≡ err code)
      × ((led_apply io s id' p held (run_plan io s id plan w).1).1.events
          ≡ (run_plan io s id plan w).1.events)
      × ((led_apply io s id' p held (run_plan io s id plan w).1).1.n76_failed ≡ true)
unfolding run_plan
run_plan-failed io s id plan w e id' p held direct h =
    let after = (run_plan io s id plan w).1 in
    let mark : after.n76_failed ≡ true =
      mark_failure-failed
        (and_then (run_commands io s plan plan.commands w) (λ _ w'. final_modes io s id plan w')) e
        h in
    let (code, refused, state) =
      Refused-err state_of (marked after.events) (led_apply io s id' p held after) (
        led_apply-Refused io s after.events direct id' p held after
          (ap (λ m. (after.events, m) ∷ []) mark)) in
    (code, refused, ap first_events state, ap first_mark state)
