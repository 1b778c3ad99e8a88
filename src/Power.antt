-- ===== src/Power.antt =====
-- The AC-recovery policy of power/it8613_power.c, two registers of the Super I/O chip.
pub mod Bits
pub mod Policy
pub mod RoundTrip
use ugreen_nas_hardware.Prelude.{
  ℕ, ◌/◌, ◌^◌, Bool, true, false, not, ◌||◌, ◌==◌, if◌then◌else◌, u8, bit_and, bit_or, Result, ok,
  err, einval, eio,
}
use ugreen_nas_hardware.Superio.{
  Machine, It86xDevice, OpenCalls, it86x_open, it86x_close, sio_read, sio_write,
}

-- include/ugreenctl.h
pub data StartupPolicy : Type 0 where
  startup_unknown startup_off startup_on startup_restore : StartupPolicy

abbrev pub policy_of_state : ℕ → StartupPolicy
policy_of_state state =
    if state == 1
    then startup_on
    else if state == 3
    then startup_off
    else if state == 7
    then startup_restore
    else startup_unknown

unfoldable pub decode_policy : ℕ → ℕ → StartupPolicy
decode_policy f2 f4 = policy_of_state (bit_or (bit_and (f2 / 2 ^ 3) 0x4) (bit_and (f4 / 2 ^ 5) 0x3))

-- The new values of the two registers; `none` of the cases is `default`.
unfoldable pub encode_policy : StartupPolicy → ℕ → ℕ → Result (ℕ × ℕ)
encode_policy startup_on f2 f4 = ok (bit_and f2 0xdf, bit_and (bit_or f4 0x20) 0xbf)
encode_policy startup_off f2 f4 = ok (bit_and f2 0xdf, bit_or f4 0x60)
encode_policy startup_restore f2 f4 = ok (bit_or f2 0x20, bit_or f4 0x60)
encode_policy startup_unknown f2 f4 = err einval

abbrev pub same_policy : StartupPolicy → StartupPolicy → Bool
same_policy startup_unknown startup_unknown = true
same_policy startup_off startup_off = true
same_policy startup_on startup_on = true
same_policy startup_restore startup_restore = true
same_policy _ _ = false

module _ {Chip : Type 0} (out_byte : ℕ → ℕ → Chip → Chip) (in_byte : ℕ → Chip → ℕ × Chip) where
  unfoldable pub read_opened :
      Result It86xDevice × Machine Chip → Result StartupPolicy × Machine Chip
  read_opened (err e, m₁) = (err e, m₁)
  read_opened (ok device, m₁) =
      let (f2, m₂) = sio_read out_byte in_byte 0xf2 m₁ in
      let (f4, m₃) = sio_read out_byte in_byte 0xf4 m₂ in
      (ok (decode_policy f2 f4), it86x_close out_byte in_byte device m₃)

  unfoldable pub read_startup_policy :
      OpenCalls → Machine Chip → Result StartupPolicy × Machine Chip
  unfolding read_opened
  read_startup_policy calls m = read_opened (it86x_open out_byte in_byte calls m)

  -- Write both registers, and read them back.
  unfoldable pub write_registers :
      StartupPolicy → It86xDevice → Result (ℕ × ℕ) → Machine Chip → Result (Unit {0}) × Machine Chip
  write_registers policy device (err e) m = (err e, it86x_close out_byte in_byte device m)
  write_registers policy device (ok (f2, f4)) m =
      let m₁ = sio_write out_byte in_byte 0xf2 f2 m in
      let m₂ = sio_write out_byte in_byte 0xf4 f4 m₁ in
      let (f2', m₃) = sio_read out_byte in_byte 0xf2 m₂ in
      -- `||` reads the second register only if the first is right.
      let second = sio_read out_byte in_byte 0xf4 m₃ in
      if not (f2' == f2)
      then (err eio, it86x_close out_byte in_byte device m₃)
      else if not (second.0 == f4) || not (same_policy (decode_policy f2 f4) policy)
      then (err eio, it86x_close out_byte in_byte device second.1)
      else (ok tt, it86x_close out_byte in_byte device second.1)

  unfoldable pub set_opened :
      StartupPolicy → Result It86xDevice × Machine Chip → Result (Unit {0}) × Machine Chip
  unfolding write_registers
  set_opened policy (err e, m₁) = (err e, m₁)
  set_opened policy (ok device, m₁) =
      let (f2, m₂) = sio_read out_byte in_byte 0xf2 m₁ in
      let (f4, m₃) = sio_read out_byte in_byte 0xf4 m₂ in
      write_registers policy device (encode_policy policy f2 f4) m₃

  unfoldable pub set_startup_policy :
      OpenCalls → StartupPolicy → Machine Chip → Result (Unit {0}) × Machine Chip
  unfolding set_opened
  set_startup_policy calls policy m = set_opened policy (it86x_open out_byte in_byte calls m)
