-- ===== src/Led/Session/Laws.antt =====
-- What the calls of a session leave alone.
pub mod Trace
pub mod Meets
pub mod Failed
pub mod Restore
pub mod Allowed
use ugreen_nas_hardware.Prelude.{
  ℕ, zero, suc, ◌+◌, ◌≡◌, refl, ◌∙◌, Bool, true, false, not, ◌||◌, ◌&&◌, List, [], ◌∷◌, some, ◌==◌,
  if◌then◌else◌, u8, Bytes, Result, ok, err, ◌>>=◌, Errno, and_then, enotsup, einval, ebadmsg,
  estale,
}
use ugreen_nas_hardware.Prelude.Written.{keeps-and_then, keeps-if}
use ugreen_nas_hardware.Led.Types.{LedValue}
use ugreen_nas_hardware.Led.Frame.{decode}
use ugreen_nas_hardware.Led.N76.{bit_of, N76Plan, N76Command}
use ugreen_nas_hardware.Led.Session.{
  LedIo, LedSession, LedWorld, LedEvent, call, pause, verify_session_identity, authorize_protocol,
  authorize_chip, chip_matches, check_access, session_target,
}
use ugreen_nas_hardware.Led.Session.Read.{
  read_attempts, is_final, or_again, is_missing, n76_unchanged, read_n76, led_read,
}
use ugreen_nas_hardware.Led.Session.Write.{check_register, final_modes}

-- A part of the world that no call of the controller touches.
pub record IsApart {Mcu W : Type 0} (part : LedWorld Mcu → List W) : Type 0 where
  pub at_call : (w : LedWorld Mcu) (mcu : Mcu) → part (record w { mcu = mcu }) ≡ part w

abbrev pub events_of : {Mcu : Type 0} → LedWorld Mcu → List LedEvent
events_of w = w.events

-- The mark of a failure, as a list for the lemmas on steps.
abbrev pub mark_of : {Mcu : Type 0} → LedWorld Mcu → List Bool
mark_of w = w.n76_failed ∷ []

pub events_of-IsApart : {Mcu : Type 0} → IsApart (events_of {Mcu = Mcu})
events_of-IsApart = record { at_call = λ w mcu. refl }

pub mark_of-IsApart : {Mcu : Type 0} → IsApart (mark_of {Mcu = Mcu})
mark_of-IsApart = record { at_call = λ w mcu. refl }

module _ {Mcu W : Type 0} (part : LedWorld Mcu → List W) (apart : IsApart part) (io : LedIo Mcu)
    (s : LedSession) where
  pub call-keeps :
      {A : Type 0} (operation : Mcu → Result A × Mcu) (before : List W) (w : LedWorld Mcu)
      → part w ≡ before
      → part (call operation w).1 ≡ before
  call-keeps operation before w h = apart.at_call w _ ∙ h

  pub pause-keeps :
      (ms : ℕ) (before : List W) (w : LedWorld Mcu)
      → part w ≡ before
      → part (pause io ms w) ≡ before
  pause-keeps ms before w h = apart.at_call w _ ∙ h

  pub verify_session_identity-keeps :
      (before : List W) (w : LedWorld Mcu)
      → part w ≡ before
      → part (verify_session_identity io s w).1 ≡ before
  unfolding verify_session_identity
  verify_session_identity-keeps before w h =
      keeps-and_then part before (call io.read_identity w) _
        (call-keeps io.read_identity before w h) (λ current w' h'. h')

  authorize_protocol-keeps :
      (before : List W) (w : LedWorld Mcu)
      → part w ≡ before
      → part (authorize_protocol io s w).1 ≡ before
  unfolding authorize_protocol
  authorize_protocol-keeps before w h =
      keeps-if part before s.access.n76_direct _ _
        (keeps-if part before w.n76_failed _ _ h (
          keeps-and_then part before (call (io.read_byte 0x5d) w) _
            (call-keeps (io.read_byte 0x5d) before w h) (λ v w' h'. h')))
        h

  -- The authorization, before it is noted.
  pub authorize-keeps :
      (before : List W) (w : LedWorld Mcu)
      → part w ≡ before
      → part
          (and_then
            (check_access s, w)
            (λ _ w₁. and_then (verify_session_identity io s w₁) (λ _ w₂.
              and_then
                (call io.owners w₂)
                (λ _ w₃. authorize_chip io s (call io.read_chip_id w₃))))).1
        ≡ before
  authorize-keeps before w h =
      keeps-and_then part before (check_access s, w) _ h
        (λ _ w₁ h₁.
          keeps-and_then part before (verify_session_identity io s w₁) _
            (verify_session_identity-keeps before w₁ h₁)
            (λ _ w₂ h₂.
              keeps-and_then part before (call io.owners w₂) _ (call-keeps io.owners before w₂ h₂)
                (λ _ w₃ h₃.
                  let h₄ = call-keeps io.read_chip_id before w₃ h₃ in
                  keeps-if part before (chip_matches s (call io.read_chip_id w₃).0) _ _
                    (authorize_protocol-keeps before _ h₄) h₄)))

  or_again-keeps :
      (value : Result LedValue) (before : List W) (again : Errno → Result LedValue × LedWorld Mcu)
      (w : LedWorld Mcu)
      → part w ≡ before
      → ((e : Errno) → part (again e).1 ≡ before)
      → part (or_again value again w).1 ≡ before
  or_again-keeps (ok v) before again w h k = h
  or_again-keeps (err e) before again w h k = keeps-if part before (is_final e) _ _ h (k e)

  read_attempts-keeps :
      (id left : ℕ) (e : Errno) (ms : ℕ) (before : List W) (w : LedWorld Mcu)
      → part w ≡ before
      → part (read_attempts io s id left e ms w).1 ≡ before
  unfolding read_attempts
  read_attempts-keeps id zero e ms before w h = h
  read_attempts-keeps id (suc left) e ms before w h =
      let w₁ = pause io ms w in
      let h₂ = call-keeps (io.read_status id) before w₁ (pause-keeps ms before w h) in
      or_again-keeps ((call (io.read_status id) w₁).0 >>= λ bytes. decode (some bytes)) before
        (λ e'. read_attempts io s id left e' 3 (call (io.read_status id) w₁).1) _ h₂
        (λ e'. read_attempts-keeps id left e' 3 before (call (io.read_status id) w₁).1 h₂)

  n76_unchanged-keeps :
      (before : List W) (w : LedWorld Mcu)
      → part w ≡ before
      → part (n76_unchanged io s w).1 ≡ before
  unfolding n76_unchanged
  n76_unchanged-keeps before w h =
      keeps-and_then part before (call io.read_chip_id w) _ (call-keeps io.read_chip_id before w h)
        (λ chip w₁ h₁.
          keeps-and_then part before (call (io.read_byte 0x5d) w₁) _
            (call-keeps (io.read_byte 0x5d) before w₁ h₁) (λ version w₂ h₂. h₂))

  read_n76-keeps :
      (id : ℕ) (before : List W) (w : LedWorld Mcu)
      → part w ≡ before
      → part (read_n76 io s id w).1 ≡ before
  unfolding read_n76
  read_n76-keeps id before w h =
      let white = io.read_byte (u8 (0x50 + bit_of id)) in
      let orange = io.read_byte (u8 (0x51 + bit_of id)) in
      keeps-and_then part before (n76_unchanged io s w) _ (n76_unchanged-keeps before w h)
        (λ version w₁ h₁.
          keeps-and_then part before (call white w₁) _ (call-keeps white before w₁ h₁) (λ a w₂ h₂.
            keeps-and_then part before (call orange w₂) _ (call-keeps orange before w₂ h₂)
              (λ b w₃ h₃. h₃)))

  pub led_read-keeps :
      (id : ℕ) (before : List W) (w : LedWorld Mcu)
      → part w ≡ before
      → part (led_read io s id w).1 ≡ before
  unfolding led_read
  led_read-keeps id before w h =
      keeps-if part before (not s.locked || is_missing (session_target s id)) _ _ h (
        keeps-and_then part before (verify_session_identity io s w) _
          (verify_session_identity-keeps before w h)
          (λ _ w₁ h₁.
            keeps-and_then part before (call io.owners w₁) _ (call-keeps io.owners before w₁ h₁)
              (λ _ w₂ h₂.
                keeps-if part before s.access.n76_direct _ _ (read_n76-keeps id before w₂ h₂)
                  (read_attempts-keeps id 3 ebadmsg 8 before w₂ h₂))))

  pub check_register-keeps :
      (plan : N76Plan) (c : N76Command) (before : List W) (w : LedWorld Mcu)
      → part w ≡ before
      → part (check_register io s plan c w).1 ≡ before
  unfolding check_register
  check_register-keeps plan c before w h =
      keeps-if part before ((c.reg == plan.mode_registers.0) || (c.reg == plan.mode_registers.1)) _
        _
        (keeps-and_then part before (call (io.read_byte c.reg) w) _
          (call-keeps (io.read_byte c.reg) before w h) (λ actual w' h'. h'))
        h

  pub final_modes-keeps :
      (id : ℕ) (plan : N76Plan) (before : List W) (w : LedWorld Mcu)
      → part w ≡ before
      → part (final_modes io s id plan w).1 ≡ before
  unfolding final_modes
  final_modes-keeps id plan before w h =
      keeps-and_then part before (led_read io s id w) _ (led_read-keeps id before w h)
        (λ value w' h'. h')
