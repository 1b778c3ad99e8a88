-- ===== src/Led/Session/Laws/Allowed.antt =====
-- What a session and its controller have when a write is authorized.
use ugreen_nas_hardware.Prelude.{
  ℕ, ◌≡◌, refl, sym, ap, ◌∙◌, arith, Bool, true, false, not, ◌&&◌, ◌||◌, some, ◌==◌, if◌then◌else◌,
  Result, ok, err, and_then, Errno, einval, eperm, enotsup, estale,
}
use ugreen_nas_hardware.Prelude.Written.{and_then-ok}
use ugreen_nas_hardware.Led.N76.{names}
use ugreen_nas_hardware.Led.Session.{
  LedIo, LedSession, LedIdentity, LedWorld, call, same_identity, check_access, chip_matches,
  verify_session_identity, authorize_protocol, authorize_chip, authorize_write, note_authorized,
}
use ugreen_nas_hardware.Led.Session.Probe.{led_identity_confirmed}

note_authorized-ok :
    {Mcu : Type 0} (r : Result (Unit {0}) × LedWorld Mcu)
    → (note_authorized r).0 ≡ ok tt
    → r.0 ≡ ok tt
note_authorized-ok (err e, w) h = cc
note_authorized-ok (ok _, w) h = refl

access-tests :
    (locked apply experimental force : Bool)
    → Path
        (Result (Unit {0}))
        (if not locked
          then err einval
          else if not apply || (experimental && not force)
          then err eperm
          else ok tt)
        (ok tt)
    → (locked ≡ true) × (apply ≡ true) × ((not experimental || force) ≡ true)
access-tests true true true true h = (refl, refl, refl)
access-tests true true true false h = cc
access-tests true true false force h = (refl, refl, refl)
access-tests true false experimental force h = cc
access-tests false apply experimental force h = cc

granted :
    (test : Bool) (e : Errno)
    → Path (Result (Unit {0})) (if test then ok tt else err e) (ok tt)
    → test ≡ true
granted true e h = refl
granted false e h = cc

guarded :
    {Mcu : Type 0} (test : Bool) (w w' : LedWorld Mcu) (r : Result (Unit {0}) × LedWorld Mcu)
    → Path (Result (Unit {0})) (if test then r else (err enotsup, w)).0 (ok tt)
    → (test ≡ true) × (Path (Result (Unit {0})) r.0 (ok tt))
guarded true w w' r h = (refl, h)
guarded false w w' r h = cc

at_protocol :
    {Mcu : Type 0} (direct known : Bool) (w : LedWorld Mcu) (r : Result (Unit {0}) × LedWorld Mcu)
    → direct ≡ false
    → Path
        (Result (Unit {0}))
        (if direct then r else (if known then ok tt else err enotsup, w)).0
        (ok tt)
    → known ≡ true
at_protocol false known w r d h = granted known enotsup h
at_protocol true known w r d h = cc

chip-tests :
    (current chip expected : ℕ)
    → (not (current == 0) && not (chip == 0) && (current == expected) && (current == chip)) ≡ true
    → (current ≡ chip) × (not (chip == 0) ≡ true) × ((chip == expected) ≡ true)
chip-tests current chip expected h = ground arith

chip-known :
    (s : LedSession) (read : Result ℕ)
    → chip_matches s read ≡ true
    → (read ≡ ok s.chip_id)
      × (not (s.chip_id == 0) ≡ true)
      × ((s.chip_id == s.identity.profile.expected_chip_id) ≡ true)
chip-known s (err e) h = cc
chip-known s (ok current) h =
    let (same, known, expected) =
      chip-tests current s.chip_id s.identity.profile.expected_chip_id h in
    (ap ok same, known, expected)

confirmed-all :
    (direct locked known expected protocol other : Bool)
    → direct ≡ false
    → locked ≡ true
    → known ≡ true
    → expected ≡ true
    → protocol ≡ true
    → (if direct then other else locked && known && expected && protocol) ≡ true
confirmed-all direct locked known expected protocol other d l k e p = ground arith

module _ {Mcu : Type 0} (io : LedIo Mcu) (s : LedSession) where
  verify-same :
      (w : LedWorld Mcu)
      → Path (Result (Unit {0})) (verify_session_identity io s w).0 (ok tt)
      → (current : LedIdentity) × ((io.read_identity w.mcu).0 ≡ ok current)
        × (same_identity s.identity current ≡ true)
  unfolding verify_session_identity
  verify-same w h =
      let (current, w', next, first) = and_then-ok (call io.read_identity w) _ tt h in
      (
        current,
        ap (λ r. r.0) first,
        granted (same_identity s.identity current) estale (ap (λ r. r.0) (sym next) ∙ h),
      )

  compared-world :
      (r : Result LedIdentity × LedWorld Mcu)
      → (and_then r
          (λ current w'. (if same_identity s.identity current then ok tt else err estale, w'))).1
        ≡ r.1
  compared-world (err e, w) = refl
  compared-world (ok current, w) = refl

  verify-mcu :
      (w : LedWorld Mcu) → (verify_session_identity io s w).1.mcu ≡ (io.read_identity w.mcu).1
  unfolding verify_session_identity
  verify-mcu w = ap (λ (x : LedWorld Mcu). x.mcu) (compared-world (call io.read_identity w))

  protocol-known :
      (w : LedWorld Mcu)
      → s.access.n76_direct ≡ false
      → Path (Result (Unit {0})) (authorize_protocol io s w).0 (ok tt)
      → (names s.identity.profile.protocol "legacy-i2c-block"
          || names s.identity.profile.protocol "smbus-block-be"
          || names s.identity.profile.protocol "smbus-block-le")
        ≡ true
  unfolding authorize_protocol
  protocol-known w mcu h =
      at_protocol s.access.n76_direct
        (names s.identity.profile.protocol "legacy-i2c-block"
          || names s.identity.profile.protocol "smbus-block-be"
          || names s.identity.profile.protocol "smbus-block-le")
        w _ mcu h

  -- A write to an MCU is authorized only where it was asked for, with force for an experimental profile,
  -- and where the session counts as one whose identity is confirmed. In the state of the machine at
  -- the authorization the identity is read, then the owners of the controller, then the chip id, each
  -- in the state that the one before leaves: the identity is that of the session, no owner is found,
  -- and the controller has the chip id of the session.
  pub authorize_write-IsAllowed :
      (w : LedWorld Mcu) (n76_failed : Bool)
      → s.access.n76_direct ≡ false
      → Path (Result (Unit {0})) (authorize_write io s w).0 (ok tt)
      → (s.access.apply ≡ true)
        × ((not s.identity.profile.experimental || s.access.force) ≡ true)
        × (led_identity_confirmed (some s) n76_failed ≡ true)
        × ((current : LedIdentity) × ((io.read_identity w.mcu).0 ≡ ok current)
            × (same_identity s.identity current ≡ true))
        × ((io.owners (io.read_identity w.mcu).1).0 ≡ ok tt)
        × ((io.read_chip_id (io.owners (io.read_identity w.mcu).1).1).0 ≡ ok s.chip_id)
  unfolding authorize_write check_access led_identity_confirmed
  authorize_write-IsAllowed w n76_failed mcu h =
      let h₀ =
        note_authorized-ok
          (and_then (check_access s, w)
            (λ _ w₁. and_then (verify_session_identity io s w₁) (λ _ w₂.
              and_then (call io.owners w₂)
                (λ _ w₃. authorize_chip io s (call io.read_chip_id w₃)))))
          h in
      let (_, w₁, next₁, first₁) = and_then-ok (check_access s, w) _ tt h₀ in
      let (locked, apply, forced) =
        access-tests s.locked s.access.apply s.identity.profile.experimental s.access.force
          (ap (λ r. r.0) first₁) in
      let h₁ = ap (λ r. r.0) (sym next₁) ∙ h₀ in
      let (_, w₂, next₂, first₂) = and_then-ok (verify_session_identity io s w₁) _ tt h₁ in
      let (current, read, same) = verify-same w₁ (ap (λ r. r.0) first₂) in
      let start : w.mcu ≡ w₁.mcu = ap (λ r. r.1.mcu) first₁ in
      let read_world : (io.read_identity w.mcu).1 ≡ w₂.mcu =
        ap (λ m. (io.read_identity m).1) start ∙ sym (verify-mcu w₁) ∙ ap (λ r. r.1.mcu) first₂ in
      let h₂ = ap (λ r. r.0) (sym next₂) ∙ h₁ in
      let (free, w₃, next₃, first₃) = and_then-ok (call io.owners w₂) _ tt h₂ in
      let h₃ = ap (λ r. r.0) (sym next₃) ∙ h₂ in
      let owners_world : (io.owners (io.read_identity w.mcu).1).1 ≡ w₃.mcu =
        ap (λ m. (io.owners m).1) read_world ∙ ap (λ r. r.1.mcu) first₃ in
      let (_, w₄) = call io.read_chip_id w₃ in
      let (matching, protocol) =
        guarded (chip_matches s (call io.read_chip_id w₃).0) w₄ w₄ (authorize_protocol io s w₄)
          h₃ in
      let (chip, known, expected) = chip-known s (call io.read_chip_id w₃).0 matching in
      let kind = protocol-known w₄ mcu protocol in
      (
        apply,
        forced,
        confirmed-all s.access.n76_direct s.locked (not (s.chip_id == 0))
            (s.chip_id == s.identity.profile.expected_chip_id) _ _ mcu locked known expected kind,
        (current, ap (λ m. (io.read_identity m).0) start ∙ read, same),
        ap (λ m. (io.owners m).0) read_world ∙ ap (λ r. r.0) first₃,
        ap (λ m. (io.read_chip_id m).0) owners_world ∙ chip,
      )
