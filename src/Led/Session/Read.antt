-- ===== src/Led/Session/Read.antt =====
-- The state of a LED, led/led.c: `ugreenctl_led_read`.
use ugreen_nas_hardware.Prelude.{
  ℕ, zero, suc, ◌+◌, Bool, true, false, not, ◌||◌, Option, none, some, ltb, ◌==◌, if◌then◌else◌, u8,
  Result, ok, err, ◌>>=◌, Errno, from_kernel, and_then, einval, eperm, ebusy, ebadmsg, estale,
}
use ugreen_nas_hardware.Led.Types.{
  LedValue, zero_value, patch_mode, patch_rgb, patch_color, patch_brightness, patch_timing,
}
use ugreen_nas_hardware.Led.Frame.{decode}
use ugreen_nas_hardware.Led.N76.{bit_of}
use ugreen_nas_hardware.Led.Session.{
  LedIo, LedSession, LedWorld, call, pause, verify_session_identity, session_target,
}

-- `-EBUSY`, `-EACCES` and `-EPERM`, after which it is not tried again.
abbrev pub is_final : Errno → Bool
is_final ebusy = true
is_final eperm = true
is_final (from_kernel n) = (n == 16) || (n == 13) || (n == 1)
is_final _ = false

abbrev pub is_missing : {A : Type 0} → Option A → Bool
is_missing none = true
is_missing (some a) = false

abbrev pub n76_unknown_fields : ℕ
n76_unknown_fields = patch_mode + patch_rgb + patch_color + patch_brightness + patch_timing

-- What an attempt ends with, or another one.
abbrev pub or_again :
    {Mcu : Type 0}
    → Result LedValue
    → (Errno → Result LedValue × LedWorld Mcu)
    → LedWorld Mcu
    → Result LedValue × LedWorld Mcu
or_again (ok value) again w = (ok value, w)
or_again (err e) again w = let rest = again e in if is_final e then (err e, w) else rest

module _ {Mcu : Type 0} (io : LedIo Mcu) (s : LedSession) where
  -- `left` attempts more; `e` is how the last one ended.
  unfoldable pub read_attempts : ℕ → ℕ → Errno → ℕ → LedWorld Mcu → Result LedValue × LedWorld Mcu
  unfolding decode
  read_attempts id zero e ms w = (err e, w)
  read_attempts id (suc left) e ms w =
      let (frame, w') = call (io.read_status id) (pause io ms w) in
      or_again (frame >>= λ bytes. decode (some bytes)) (λ e'. read_attempts id left e' 3 w') w'

  -- The chip and its version are those of the session.
  unfoldable pub n76_unchanged : LedWorld Mcu → Result ℕ × LedWorld Mcu
  n76_unchanged w = and_then (call io.read_chip_id w) (λ chip w₁.
      and_then (call (io.read_byte 0x5d) w₁) (λ version w₂. (
        if not (chip == s.chip_id) || not (chip == 0xa5b5) || not (version == s.n76_version)
            then err estale
            else ok version,
        w₂,
      )))

  unfoldable pub read_n76 : ℕ → LedWorld Mcu → Result LedValue × LedWorld Mcu
  unfolding n76_unchanged
  read_n76 id w = and_then (n76_unchanged w) (λ version w₁.
      and_then (call (io.read_byte (u8 (0x50 + bit_of id))) w₁) (λ white w₂.
        and_then (call (io.read_byte (u8 (0x51 + bit_of id))) w₂) (λ orange w₃. (
          if ltb 3 white || ltb 3 orange
              then err ebadmsg
              else ok (record zero_value {
                unknown_fields = n76_unknown_fields;
                n76_mode_valid = true;
                n76_modes = (white, orange);
                n76_version = version;
              }),
          w₃,
        ))))

  unfoldable pub led_read : ℕ → LedWorld Mcu → Result LedValue × LedWorld Mcu
  unfolding session_target verify_session_identity read_n76 read_attempts
  led_read id w =
      if not s.locked || is_missing (session_target s id)
      then (err einval, w)
      else and_then (verify_session_identity io s w) (λ _ w₁.
        and_then (call io.owners w₁)
          (λ _ w₂. if s.access.n76_direct then read_n76 id w₂ else read_attempts id 3 ebadmsg 8 w₂))
