-- ===== src/Led/Session/Write.antt =====
-- Changing a LED, led/led.c: `change` and `ugreenctl_led_apply`.
use ugreen_nas_hardware.Prelude.{
  ℕ, ◌+◌, ◌/◌, ◌^◌, Bool, true, false, not, ◌||◌, ◌&&◌, List, [], ◌∷◌, Option, none, some, leb,
  ◌==◌, if◌then◌else◌, u8, u32, Bytes, codes, Result, ok, err, and_then, einval, eio,
}
use ugreen_nas_hardware.Fan.Snapshot.{after_prefix}
use ugreen_nas_hardware.Led.Types.{
  LedValue, LedPatch, has, patch_mode, patch_rgb, patch_brightness, patch_timing, mode_on,
  mode_blink,
}
use ugreen_nas_hardware.Led.Frame.{Parameters, encode, encode_smbus}
use ugreen_nas_hardware.Led.Patch.{validate_target_patch}
use ugreen_nas_hardware.Led.N76.{N76Command, N76Plan, n76_plan, names}
use ugreen_nas_hardware.Led.Session.{
  LedIo, LedSession, LedWorld, sent_command, sent_byte, call, pause, log, authorize_write,
  session_target,
}
use ugreen_nas_hardware.Led.Session.Read.{led_read, is_missing}

-- The requested fields that a value does not have.
unfoldable pub differs : LedPatch → LedValue → Bool
differs expected value =
    let wanted = expected.value in
    (has expected patch_rgb
      && (not (value.red == wanted.red)
          || not (value.green == wanted.green)
          || not (value.blue == wanted.blue)))
    || (has expected patch_brightness && not (value.brightness == wanted.brightness))
    || (has expected patch_mode && not (value.mode == wanted.mode))
    || (has expected patch_timing
        && (not (value.on_ms == wanted.on_ms) || not (value.off_ms == wanted.off_ms)))

-- `strncmp(protocol, "smbus-block-", 12) == 0`
abbrev pub is_smbus : Option Bytes → Bool
is_smbus none = false
is_smbus (some protocol) = not (is_missing (after_prefix (codes "smbus-block-") protocol))

unfoldable pub frame_for : LedSession → ℕ → ℕ → Parameters → Result Bytes
frame_for s id command parameters =
    let protocol = s.identity.profile.protocol in
    if is_smbus protocol
    then encode_smbus command (some parameters) (names protocol "smbus-block-le")
    else encode id command (some parameters)

-- A command, its parameters and what has to be read back.
pub record LedChange : Type 0 where
  pub command : ℕ
  pub parameters : Parameters
  pub expected : LedPatch

unfoldable pub rgb_change : LedPatch → LedChange
rgb_change p = record {
  command = 2;
  parameters = record { p0 = u8 p.value.red; p1 = u8 p.value.green; p2 = u8 p.value.blue; p3 = 0 };
  expected = record { fields = patch_rgb; value = p.value };
}

unfoldable pub brightness_change : LedPatch → LedChange
brightness_change p = record {
  command = 1;
  parameters = record { p0 = u8 p.value.brightness; p1 = 0; p2 = 0; p3 = 0 };
  expected = record { fields = patch_brightness; value = p.value };
}

-- A steady mode, or an effect with its durations.
unfoldable pub mode_change : LedPatch → LedChange
mode_change p =
    let v = p.value in
    let cycle = u32 (v.on_ms + v.off_ms) in
    if leb v.mode mode_on
    then record {
      command = 3;
      parameters = record { p0 = u8 v.mode; p1 = 0; p2 = 0; p3 = 0 };
      expected = record { fields = patch_mode; value = v };
    }
    else record {
      command = if v.mode == mode_blink then 4 else 5;
      parameters = record {
        p0 = u8 (cycle / 2 ^ 8);
        p1 = u8 cycle;
        p2 = u8 (v.on_ms / 2 ^ 8);
        p3 = u8 v.on_ms;
      };
      expected = record { fields = patch_mode + patch_timing; value = v };
    }

-- The changes that a request wants, in their order.
unfoldable pub changes_of : LedPatch → List LedChange
unfolding rgb_change brightness_change mode_change
changes_of p =
    let mode = if has p patch_mode then mode_change p ∷ [] else [] in
    let brightness = if has p patch_brightness then brightness_change p ∷ mode else mode in
    if has p patch_rgb then rgb_change p ∷ brightness else brightness

-- What the caller's `readback` holds, or the value that was read where it is NULL.
abbrev pub held_or : Option LedValue → LedValue → LedValue
held_or none local = local
held_or (some held) local = held

-- A failed transaction marks the session.
abbrev pub mark_failure :
    {Mcu : Type 0} → Result LedValue × LedWorld Mcu → Result LedValue × LedWorld Mcu
mark_failure (ok value, w) = (ok value, w)
mark_failure (err e, w) = (err e, record w { n76_failed = true })

module _ {Mcu : Type 0} (io : LedIo Mcu) (s : LedSession) where
  -- From the frame on.
  unfoldable pub send_frame : ℕ → LedPatch → Bytes → LedWorld Mcu → Result LedValue × LedWorld Mcu
  unfolding differs
  send_frame id expected frame w =
      let before = pause io 1 w in
      and_then (call (io.write_command id frame) (log (sent_command id frame) before)) (λ _ w₁.
        and_then (call io.read_ack (pause io 2 w₁)) (λ _ w₂.
          and_then (led_read io s id w₂)
            (λ readback w₃. (if differs expected readback then err eio else ok readback, w₃))))

  -- A change, with what is read back after it.
  unfoldable pub change : ℕ → LedChange → LedWorld Mcu → Result LedValue × LedWorld Mcu
  unfolding frame_for send_frame
  change id c w = and_then (authorize_write io s w) (λ _ w₁.
      and_then (frame_for s id c.command c.parameters, w₁)
        (λ frame w₂. send_frame id c.expected frame w₂))

  -- The changes one after the other; `readback` is what the last reading stored.
  unfoldable pub apply_changes :
      ℕ → List LedChange → LedValue → LedWorld Mcu → Result LedValue × LedWorld Mcu
  unfolding change
  apply_changes id [] readback w = (ok readback, w)
  apply_changes id (c ∷ cs) readback w =
      and_then (change id c w) (λ readback' w'. apply_changes id cs readback' w')

  -- A later change must not undo an earlier one.
  unfoldable pub apply_block :
      ℕ → LedPatch → Option LedValue → LedWorld Mcu → Result LedValue × LedWorld Mcu
  unfolding changes_of apply_changes differs
  apply_block id p held w = and_then (led_read io s id w) (λ local w₁.
      and_then (apply_changes id (changes_of p) (held_or held local) w₁)
        (λ readback w₂. (if differs p readback then err eio else ok readback, w₂)))

  -- A mode register is read back after it was written.
  unfoldable pub check_register :
      N76Plan → N76Command → LedWorld Mcu → Result (Unit {0}) × LedWorld Mcu
  check_register plan c w =
      let checked =
        and_then (call (io.read_byte c.reg) w)
          (λ actual w'. (if actual == c.value then ok tt else err eio, w')) in
      if (c.reg == plan.mode_registers.0) || (c.reg == plan.mode_registers.1)
      then checked
      else (ok tt, w)

  -- The commands of a plan; each one is authorized.
  unfoldable pub run_commands :
      N76Plan → List N76Command → LedWorld Mcu → Result (Unit {0}) × LedWorld Mcu
  unfolding check_register
  run_commands plan [] w = (ok tt, w)
  run_commands plan (c ∷ cs) w = and_then (authorize_write io s w) (λ _ w₁.
      and_then (call (io.write_byte c.reg c.value) (log (sent_byte c.reg c.value) w₁)) (λ _ w₂.
        and_then (check_register plan c (pause io c.settle_ms w₂))
          (λ _ w₃. run_commands plan cs w₃)))

  -- The modes after the last command.
  unfoldable pub final_modes : ℕ → N76Plan → LedWorld Mcu → Result LedValue × LedWorld Mcu
  final_modes id plan w = and_then (led_read io s id w) (λ value w'. (
    if not (value.n76_modes.0 == plan.expected_modes.0)
          || not (value.n76_modes.1 == plan.expected_modes.1)
        then err eio
        else ok (record value { unverified_write = true }),
    w',
  ))

  unfoldable pub run_plan : ℕ → N76Plan → LedWorld Mcu → Result LedValue × LedWorld Mcu
  unfolding run_commands final_modes
  run_plan id plan w =
      mark_failure (and_then (run_commands plan plan.commands w) (λ _ w'. final_modes id plan w'))

  unfoldable pub apply_n76 : ℕ → Option LedPatch → LedWorld Mcu → Result LedValue × LedWorld Mcu
  unfolding run_plan
  apply_n76 id p w =
      and_then (n76_plan (some s.identity.profile) id p, w)
        (λ plan w₁. and_then (led_read io s id w₁) (λ _ w₂. run_plan id plan w₂))

  -- `p` is not NULL after its check.
  unfoldable pub apply_authorized :
      ℕ → Option LedPatch → Option LedValue → LedWorld Mcu → Result LedValue × LedWorld Mcu
  unfolding apply_n76 apply_block
  apply_authorized id none held w = (err einval, w)
  apply_authorized id (some p) held w =
      if s.access.n76_direct then apply_n76 id (some p) w else apply_block id p held w

  -- `held` is what `*readback` holds before, `none` for NULL; the value is `*readback` after success.
  unfoldable pub led_apply :
      ℕ → Option LedPatch → Option LedValue → LedWorld Mcu → Result LedValue × LedWorld Mcu
  unfolding session_target apply_authorized
  led_apply id p held w =
      if is_missing (session_target s id)
      then (err einval, w)
      else and_then (validate_target_patch (session_target s id) p, w)
          (λ _ w₁. and_then (authorize_write io s w₁) (λ _ w₂. apply_authorized id p held w₂))
