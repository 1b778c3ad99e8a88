-- ===== src/Led/Session/Probe.antt =====
-- Looking for the controller and what a session says of it, led/led.c: `n76_profile`, `n76_probe`,
-- `probe`, `ugreenctl_led_identity_confirmed` and `ugreenctl_led_preflight`.
use ugreen_nas_hardware.Prelude.{
  ℕ, Bool, false, not, ◌&&◌, ◌||◌, Option, none, some, ◌==◌, if◌then◌else◌, Result, ok, err,
  and_then, einval, enodev,
}
use ugreen_nas_hardware.Led.Types.{LedValue, LedPatch, LedDescriptor, LedProfile}
use ugreen_nas_hardware.Led.Patch.{validate_state_patch}
use ugreen_nas_hardware.Led.N76.{n76_plan, names}
use ugreen_nas_hardware.Led.Session.{
  LedIo, LedSession, LedWorld, call, verify_session_identity, session_target,
}
use ugreen_nas_hardware.Led.Session.Read.{led_read}

unfoldable pub n76_profile : LedProfile → Bool
unfolding names
n76_profile profile =
    names profile.protocol "sysfs-n76"
    && ((names profile.profile_id "dh2600-n76" && names profile.product_name "DH2600")
        || (names profile.profile_id "dxp480t-n76" && names profile.product_name "DXP480T Plus"))

-- The chip id that was read; an unreadable one is 0.
abbrev chip_or_zero : Result ℕ → ℕ
chip_or_zero (err e) = 0
chip_or_zero (ok chip) = chip

module _ {Mcu : Type 0} (io : LedIo Mcu) where
  -- With the session after it, which keeps the chip id and the version.
  unfoldable pub n76_probe : LedSession → LedWorld Mcu → Result LedSession × LedWorld Mcu
  unfolding verify_session_identity
  n76_probe s w = and_then (verify_session_identity io s w) (λ _ w₁.
      and_then (call io.owners w₁) (λ _ w₂. and_then (call io.read_chip_id w₂) (λ chip w₃.
        let version =
          and_then (call (io.read_byte 0x5d) w₃)
            (λ v w₄. (ok (record s { chip_id = chip; n76_version = v }), w₄)) in
        if not (chip == 0xa5b5) then (err enodev, w₃) else version)))

  -- A missing chip id is kept as 0, and never permits a write.
  unfoldable pub probe : LedSession → LedWorld Mcu → Result LedSession × LedWorld Mcu
  unfolding led_read
  probe s w =
      let (chip, w₁) = call io.read_chip_id w in
      let s' : LedSession = record s { chip_id = chip_or_zero chip } in
      and_then (led_read io s' 0 w₁) (λ _ w₂. and_then (led_read io s' 1 w₂) (λ _ w₃. (ok s', w₃)))

-- `none` for NULL; `n76_failed` is that of the session.
unfoldable pub led_identity_confirmed : Option LedSession → Bool → Bool
unfolding n76_profile names
led_identity_confirmed none n76_failed = false
led_identity_confirmed (some s) n76_failed =
    let profile = s.identity.profile in
    if s.access.n76_direct
    then s.locked && not n76_failed && n76_profile profile && (s.chip_id == 0xa5b5)
    else s.locked
      && not (s.chip_id == 0)
      && (s.chip_id == profile.expected_chip_id)
      && (names profile.protocol "legacy-i2c-block"
          || names profile.protocol "smbus-block-be"
          || names profile.protocol "smbus-block-le")

abbrev pub dropped : {A : Type 0} → Result A → Result (Unit {0})
dropped (err e) = err e
dropped (ok a) = ok tt

-- With the target, which is not NULL.
unfoldable pub preflight_target :
    LedSession → ℕ → Option LedDescriptor → Option LedValue → Option LedPatch → Result (Unit {0})
unfolding n76_plan validate_state_patch
preflight_target s id none before patch = err einval
preflight_target s id (some target) none patch = err einval
preflight_target s id (some target) (some before) patch =
    if s.access.n76_direct
    then dropped (n76_plan (some s.identity.profile) id patch)
    else validate_state_patch (some s.identity.profile) (some target) (some before) patch

-- `none` for NULL.
unfoldable pub led_preflight :
    LedSession → ℕ → Option LedValue → Option LedPatch → Result (Unit {0})
unfolding session_target preflight_target
led_preflight s id before patch = preflight_target s id (session_target s id) before patch
