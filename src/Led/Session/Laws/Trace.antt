-- ===== src/Led/Session/Laws/Trace.antt =====
-- On the writes that `ugreenctl_led_apply` sends to the controller.
use ugreen_nas_hardware.Prelude.{
  ℕ, ◌≡◌, refl, ap, List, [], ◌∷◌, ◌++◌, Bool, true, false, Option, some, if◌then◌else◌, Bytes,
  Result, ok, err, and_then, einval,
}
use ugreen_nas_hardware.Prelude.Written.{
  Wrote, Wrote-all, Wrote-nothing, Wrote-refused, Wrote-and_then, Wrote-then_nothing,
  Wrote-after_nothing, Wrote-if, keeps-and_then,
}
use ugreen_nas_hardware.Led.Types.{LedValue, LedPatch}
use ugreen_nas_hardware.Led.Patch.{validate_target_patch}
use ugreen_nas_hardware.Led.N76.{N76Command, N76Plan, n76_plan}
use ugreen_nas_hardware.Led.Session.{
  LedIo, LedSession, LedWorld, LedEvent, authorized, sent_command, sent_byte, call, pause, log,
  authorize_write, note_authorized, session_target,
}
use ugreen_nas_hardware.Led.Session.Read.{led_read, is_missing}
use ugreen_nas_hardware.Led.Session.Write.{
  LedChange, frame_for, changes_of, send_frame, change, apply_changes, apply_block, held_or,
  check_register, run_commands, mark_failure, run_plan, apply_n76, apply_authorized, led_apply,
}
use ugreen_nas_hardware.Led.Session.Laws.{
  events_of, events_of-IsApart, authorize-keeps, led_read-keeps, check_register-keeps,
  final_modes-keeps,
}

-- The write of a frame that was built.
unfoldable pub frame_events : ℕ → Result Bytes → List LedEvent
frame_events id (err e) = []
frame_events id (ok frame) = sent_command id frame ∷ []

-- Each change is authorized before its frame is sent.
unfoldable pub change_events : LedSession → ℕ → List LedChange → List LedEvent
unfolding frame_for frame_events
change_events s id [] = []
change_events s id (c ∷ cs) =
    (authorized ∷ frame_events id (frame_for s id c.command c.parameters)) ++ change_events s id cs

-- Each command is authorized before its byte is written.
unfoldable pub command_events : List N76Command → List LedEvent
command_events [] = []
command_events (c ∷ cs) = authorized ∷ sent_byte c.reg c.value ∷ command_events cs

unfoldable pub plan_events : Result N76Plan → List LedEvent
unfolding command_events
plan_events (err e) = []
plan_events (ok plan) = command_events plan.commands

-- What a request sends on a session.
unfoldable pub apply_events : LedSession → ℕ → LedPatch → List LedEvent
unfolding n76_plan changes_of change_events plan_events
apply_events s id p =
    authorized
    ∷ (if s.access.n76_direct
        then plan_events (n76_plan (some s.identity.profile) id (some p))
        else change_events s id (changes_of p))

module _ {Mcu : Type 0} (io : LedIo Mcu) (s : LedSession) where
  note_authorized-Wrote :
      (before : List LedEvent) (r : Result (Unit {0}) × LedWorld Mcu)
      → events_of r.1 ≡ before
      → Wrote events_of before (authorized ∷ []) (note_authorized r)
  unfolding Wrote
  note_authorized-Wrote before (err e, w) h =
      Wrote-refused events_of (Unit {0}) before (authorized ∷ []) e w h
  note_authorized-Wrote before (ok _, w) h = ap (λ l. l ++ authorized ∷ []) h

  authorize_write-Wrote :
      (before : List LedEvent) (w : LedWorld Mcu)
      → events_of w ≡ before
      → Wrote events_of before (authorized ∷ []) (authorize_write io s w)
  unfolding authorize_write
  authorize_write-Wrote before w h =
      note_authorized-Wrote before _ (authorize-keeps events_of events_of-IsApart io s before w h)

  -- A call that is noted.
  logged-Wrote :
      {A : Type 0} (event : LedEvent) (operation : Mcu → Result A × Mcu) (before : List LedEvent)
      (w : LedWorld Mcu)
      → events_of w ≡ before
      → Wrote events_of before (event ∷ []) (call operation (log event w))
  logged-Wrote event operation before w h =
      Wrote-all events_of before (event ∷ []) (call operation (log event w))
        (ap (λ l. l ++ event ∷ []) h)

  send_frame-Wrote :
      (id : ℕ) (expected : LedPatch) (frame : Bytes) (before : List LedEvent) (w : LedWorld Mcu)
      → events_of w ≡ before
      → Wrote events_of before (sent_command id frame ∷ []) (send_frame io s id expected frame w)
  unfolding send_frame
  send_frame-Wrote id expected frame before w h =
      Wrote-then_nothing events_of before (sent_command id frame ∷ [])
        (call (io.write_command id frame) (log (sent_command id frame) (pause io 1 w))) _
        (logged-Wrote (sent_command id frame) (io.write_command id frame) before (pause io 1 w) h)
        (λ _ w₁ h₁. keeps-and_then events_of _ (call io.read_ack (pause io 2 w₁)) _ h₁ (λ _ w₂ h₂.
          keeps-and_then events_of _ (led_read io s id w₂) _
            (led_read-keeps events_of events_of-IsApart io s id _ w₂ h₂) (λ readback w₃ h₃. h₃)))

  framed-Wrote :
      (id : ℕ) (expected : LedPatch) (frame : Result Bytes) (before : List LedEvent)
      (w : LedWorld Mcu)
      → events_of w ≡ before
      → Wrote events_of before
          (frame_events id frame)
          (and_then (frame, w) (λ f w'. send_frame io s id expected f w'))
  unfolding frame_events
  framed-Wrote id expected (err e) before w h = Wrote-refused events_of LedValue before [] e w h
  framed-Wrote id expected (ok f) before w h = send_frame-Wrote id expected f before w h

  change-Wrote :
      (id : ℕ) (c : LedChange) (before : List LedEvent) (w : LedWorld Mcu)
      → events_of w ≡ before
      → Wrote events_of before
          (authorized ∷ frame_events id (frame_for s id c.command c.parameters))
          (change io s id c w)
  unfolding change
  change-Wrote id c before w h =
      Wrote-and_then events_of before (authorized ∷ []) _ (authorize_write io s w) _
        (authorize_write-Wrote before w h)
        (λ _ w₁ h₁. framed-Wrote id c.expected (frame_for s id c.command c.parameters) _ w₁ h₁)

  apply_changes-Wrote :
      (id : ℕ) (cs : List LedChange) (readback : LedValue) (before : List LedEvent)
      (w : LedWorld Mcu)
      → events_of w ≡ before
      → Wrote events_of before (change_events s id cs) (apply_changes io s id cs readback w)
  unfolding apply_changes change_events
  apply_changes-Wrote id [] readback before w h = Wrote-nothing events_of before _ h
  apply_changes-Wrote id (c ∷ cs) readback before w h =
      Wrote-and_then events_of before _ (change_events s id cs) (change io s id c w) _
        (change-Wrote id c before w h)
        (λ readback' w' h'. apply_changes-Wrote id cs readback' _ w' h')

  apply_block-Wrote :
      (id : ℕ) (p : LedPatch) (held : Option LedValue) (before : List LedEvent) (w : LedWorld Mcu)
      → events_of w ≡ before
      → Wrote events_of before (change_events s id (changes_of p)) (apply_block io s id p held w)
  unfolding apply_block
  apply_block-Wrote id p held before w h =
      Wrote-after_nothing events_of before (change_events s id (changes_of p)) (led_read io s id w)
        _ (led_read-keeps events_of events_of-IsApart io s id before w h)
        (λ local w₁ h₁.
          Wrote-then_nothing events_of before (change_events s id (changes_of p))
            (apply_changes io s id (changes_of p) (held_or held local) w₁) _
            (apply_changes-Wrote id (changes_of p) (held_or held local) before w₁ h₁)
            (λ readback w₂ h₂. h₂))

  run_commands-Wrote :
      (plan : N76Plan) (cs : List N76Command) (before : List LedEvent) (w : LedWorld Mcu)
      → events_of w ≡ before
      → Wrote events_of before (command_events cs) (run_commands io s plan cs w)
  unfolding run_commands command_events
  run_commands-Wrote plan [] before w h = Wrote-nothing events_of before _ h
  run_commands-Wrote plan (c ∷ cs) before w h =
      Wrote-and_then events_of before (authorized ∷ []) _ (authorize_write io s w) _
        (authorize_write-Wrote before w h)
        (λ _ w₁ h₁.
          Wrote-and_then events_of _ (sent_byte c.reg c.value ∷ []) (command_events cs)
            (call (io.write_byte c.reg c.value) (log (sent_byte c.reg c.value) w₁)) _
            (logged-Wrote (sent_byte c.reg c.value) (io.write_byte c.reg c.value) _ w₁ h₁)
            (λ _ w₂ h₂.
              Wrote-after_nothing events_of _ (command_events cs)
                (check_register io s plan c (pause io c.settle_ms w₂)) _
                (check_register-keeps events_of events_of-IsApart io s plan c _
                  (pause io c.settle_ms w₂) h₂)
                (λ _ w₃ h₃. run_commands-Wrote plan cs _ w₃ h₃)))

  mark_failure-Wrote :
      (before planned : List LedEvent) (r : Result LedValue × LedWorld Mcu)
      → Wrote events_of before planned r
      → Wrote events_of before planned (mark_failure r)
  unfolding Wrote
  mark_failure-Wrote before planned (err e, w) h = h
  mark_failure-Wrote before planned (ok value, w) h = h

  run_plan-Wrote :
      (id : ℕ) (plan : N76Plan) (before : List LedEvent) (w : LedWorld Mcu)
      → events_of w ≡ before
      → Wrote events_of before (command_events plan.commands) (run_plan io s id plan w)
  unfolding run_plan
  run_plan-Wrote id plan before w h = mark_failure-Wrote before _ _ (
      Wrote-then_nothing events_of before (command_events plan.commands)
        (run_commands io s plan plan.commands w) _
        (run_commands-Wrote plan plan.commands before w h)
        (λ _ w' h'. final_modes-keeps events_of events_of-IsApart io s id plan _ w' h'))

  planned-Wrote :
      (id : ℕ) (plan : Result N76Plan) (before : List LedEvent) (w : LedWorld Mcu)
      → events_of w ≡ before
      → Wrote events_of before (plan_events plan) (
          and_then
            (plan, w)
            (λ made w₁. and_then (led_read io s id w₁) (λ _ w₂. run_plan io s id made w₂)))
  unfolding plan_events
  planned-Wrote id (err e) before w h = Wrote-refused events_of LedValue before [] e w h
  planned-Wrote id (ok plan) before w h =
      Wrote-after_nothing events_of before (command_events plan.commands) (led_read io s id w) _
        (led_read-keeps events_of events_of-IsApart io s id before w h)
        (λ _ w₂ h₂. run_plan-Wrote id plan before w₂ h₂)

  apply_authorized-Wrote :
      (direct : Bool) (id : ℕ) (p : LedPatch) (held : Option LedValue) (before : List LedEvent)
      (w : LedWorld Mcu)
      → events_of w ≡ before
      → Wrote events_of before
          (if direct
            then plan_events (n76_plan (some s.identity.profile) id (some p))
            else change_events s id (changes_of p))
          (if direct then apply_n76 io s id (some p) w else apply_block io s id p held w)
  unfolding apply_n76
  apply_authorized-Wrote true id p held before w h =
      planned-Wrote id (n76_plan (some s.identity.profile) id (some p)) before w h
  apply_authorized-Wrote false id p held before w h = apply_block-Wrote id p held before w h

  -- A request sends the writes of `apply_events`, in their order, or a beginning of them where a
  -- step fails; in `apply_events` each write stands directly after the authorization that it needs.
  pub led_apply-Wrote :
      (id : ℕ) (p : LedPatch) (held : Option LedValue) (w : LedWorld Mcu)
      → Wrote events_of w.events (apply_events s id p) (led_apply io s id (some p) held w)
  unfolding led_apply apply_authorized apply_events
  led_apply-Wrote id p held w =
      Wrote-if events_of w.events (apply_events s id p) (is_missing (session_target s id)) _ _
        (Wrote-refused events_of LedValue w.events (apply_events s id p) einval w refl)
        (Wrote-after_nothing events_of w.events (apply_events s id p)
          (validate_target_patch (session_target s id) (some p), w) _ refl
          (λ _ w₁ h₁.
            Wrote-and_then events_of w.events (authorized ∷ []) _ (authorize_write io s w₁) _
              (authorize_write-Wrote w.events w₁ h₁)
              (λ _ w₂ h₂. apply_authorized-Wrote s.access.n76_direct id p held _ w₂ h₂)))
