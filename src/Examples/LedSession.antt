-- ===== src/Examples/LedSession.antt =====
-- Sessions with a controller that answers what a list of status frames says, and one of an N76 that
-- does not take a byte.
use ugreen_nas_hardware.Prelude.{
  ℕ, ◌≡◌, refl, Bool, true, false, List, [], ◌∷◌, ◌+◌, ◌&&◌, some, none, Bytes, codes, bytes_eq,
  Result, ok, err, Errno, eio, enodata, str_is, get_elem?,
}
use ugreen_nas_hardware.Prelude.Written.{Wrote}
use ugreen_nas_hardware.Led.Types.{
  LedValue, zero_value, LedPatch, LedDescriptor, LedProfile, patch_brightness, patch_mode,
  patch_color, mode_on, has,
}
use ugreen_nas_hardware.Led.Frame.{encode}
use ugreen_nas_hardware.Led.Patch.{validate_target_patch}
use ugreen_nas_hardware.Led.N76.{N76Plan}
use ugreen_nas_hardware.Led.Profiles.{led_profile_find, led_descriptors}
use ugreen_nas_hardware.Led.Profiles.Table.{
  legacy, rgb4, rgb2, mcu_profile, n76_profile, n76_power, disk_rgb,
}
use ugreen_nas_hardware.Led.Profiles.Laws.{led_profile_find_lem, bays_of, count_up}
use ugreen_nas_hardware.Led.Profiles.Laws.Position.{led_profile_find-position}
use ugreen_nas_hardware.Led.Session.{
  LedIdentity, LedSession, LedIo, LedWorld, authorize_write, session_target, find_led,
  same_identity,
}
use ugreen_nas_hardware.Led.Session.Read.{led_read}
use ugreen_nas_hardware.Led.Session.Write.{led_apply, run_plan}
use ugreen_nas_hardware.Led.Session.Identify.{led_identify}
use ugreen_nas_hardware.Led.Session.Probe.{led_identity_confirmed}
use ugreen_nas_hardware.Led.Session.Laws.{events_of}
use ugreen_nas_hardware.Led.Session.Laws.Allowed.{authorize_write-IsAllowed}
use ugreen_nas_hardware.Led.Session.Laws.Trace.{apply_events, led_apply-Wrote}
use ugreen_nas_hardware.Led.Session.Laws.Meets.{overlay, led_apply-overlay}
use ugreen_nas_hardware.Led.Session.Laws.Failed.{run_plan-failed}
use ugreen_nas_hardware.Led.Session.Laws.Restore.{IsRestored, led_identify-IsRestored}

abbrev profile : LedProfile
profile = legacy "dx4600-legacy" "DX4600" 4 rgb4

abbrev identity_of : LedProfile → LedIdentity
identity_of profile = record {
  manufacturer = codes "UGREEN";
  product_name = codes "DX4600";
  product_version = [];
  board_version = [];
  profile = profile;
  source = codes "dmi";
  compatible = [];
  bios_vendor = [];
  bios_version = [];
  bios_date = [];
}

abbrev session : LedSession
session = record {
  identity = identity_of profile;
  access = record { force = true; apply = true; n76_direct = false; n76_bus = 0; n76_address = 0 };
  locked = true;
  chip_id = 0xc5b2;
  n76_version = 0;
}

unfoldable next_status : ℕ → List Bytes → Result Bytes × List Bytes
next_status id [] = (err enodata, [])
next_status id (frame ∷ frames) = (ok frame, frames)

-- The frames that are read, one after the other.
abbrev mcu : LedIo (List Bytes)
mcu = record {
  owners = λ frames. (ok tt, frames);
  read_chip_id = λ frames. (ok 0xc5b2, frames);
  read_status = next_status;
  write_command = λ id frame frames. (ok tt, frames);
  read_ack = λ frames. (ok tt, frames);
  pause_ms = λ ms frames. frames;
  read_identity = λ frames. (ok (identity_of profile), frames);
  read_byte = λ reg frames. (ok 0, frames);
  write_byte = λ reg value frames. (err eio, frames);
}

abbrev world : List Bytes → LedWorld (List Bytes)
world frames = record { mcu = frames; events = []; n76_failed = false }

-- Mode blink, white at 128, 500 ms on in a cycle of 1000 ms.
abbrev calm : Bytes
calm = 2 ∷ 128 ∷ 255 ∷ 255 ∷ 255 ∷ 3 ∷ 232 ∷ 1 ∷ 244 ∷ 5 ∷ 95 ∷ []

-- Mode blink, orange at 255, 250 ms on in a cycle of 500 ms.
abbrev showing : Bytes
showing = 2 ∷ 255 ∷ 255 ∷ 100 ∷ 0 ∷ 1 ∷ 244 ∷ 0 ∷ 250 ∷ 4 ∷ 83 ∷ []

abbrev brightness_patch : LedPatch
brightness_patch = record {
  fields = patch_brightness;
  value = record zero_value { brightness = 128 };
}

abbrev calm_value : LedValue
calm_value = record zero_value {
  mode = 2;
  brightness = 128;
  red = 255;
  green = 255;
  blue = 255;
  on_ms = 500;
  off_ms = 500;
}

applied :
    (led_apply mcu session 2 (some brightness_patch) none (world (showing ∷ calm ∷ []))).0
    ≡ ok calm_value
unfolding led_apply next_status validate_target_patch has authorize_write str_is led_read encode
applied = refl

led_apply-Wrote_example :
    Wrote events_of []
      (apply_events session 2 brightness_patch)
      (led_apply mcu session 2 (some brightness_patch) none (world (showing ∷ calm ∷ [])))
led_apply-Wrote_example =
    led_apply-Wrote mcu session 2 brightness_patch none (world (showing ∷ calm ∷ []))

led_apply-overlay_example : overlay brightness_patch calm_value ≡ calm_value
led_apply-overlay_example =
    led_apply-overlay mcu session 2 brightness_patch none (world (showing ∷ calm ∷ [])) calm_value
      refl applied

-- The N76 of a DXP480T.
abbrev n76_session : LedSession
n76_session = record session {
  identity = identity_of (n76_profile "dxp480t-n76" "DXP480T Plus" 0 n76_power "leds_mcu_n76e003");
  access = record {
    force = true;
    apply = true;
    n76_direct = true;
    n76_bus = 0;
    n76_address = 0x40;
  };
  chip_id = 0xa5b5;
}

abbrev n76 : LedIo (List Bytes)
n76 = record mcu {
  read_chip_id = λ frames. (ok 0xa5b5, frames);
  read_identity = λ frames. (ok n76_session.identity, frames);
}

abbrev on_patch : LedPatch
on_patch = record {
  fields = patch_mode + patch_color;
  value = record zero_value { mode = mode_on; color = 1 };
}

abbrev on_plan : N76Plan
on_plan = record {
  commands = record { reg = 0x50; value = 0; settle_ms = 10 } ∷ [];
  mode_registers = (0x50, 0x51);
  expected_modes = (1, 0);
  unverified_fields = 0;
}

not_taken : (run_plan n76 n76_session 0 on_plan (world [])).0 ≡ err eio
unfolding run_plan authorize_write bytes_eq
not_taken = refl

run_plan-failed_example :
    (code : Errno) × ((led_apply n76 n76_session 0
        (some on_patch)
        none
        (run_plan n76 n76_session 0 on_plan (world [])).1).0
      ≡ err code)
    × ((led_apply n76 n76_session 0
          (some on_patch)
          none
          (run_plan n76 n76_session 0 on_plan (world [])).1).1.events
        ≡ (run_plan n76 n76_session 0 on_plan (world [])).1.events)
    × ((led_apply n76 n76_session 0
          (some on_patch)
          none
          (run_plan n76 n76_session 0 on_plan (world [])).1).1.n76_failed
        ≡ true)
run_plan-failed_example =
    run_plan-failed n76 n76_session 0 on_plan (world []) eio 0 (some on_patch) none refl not_taken

-- The state, four readings while it is made to blink, and four while it is restored.
abbrev frames_shown : List Bytes
frames_shown = calm ∷ showing ∷ showing ∷ showing ∷ showing ∷ calm ∷ calm ∷ calm ∷ calm ∷ []

abbrev never : ℕ → Bool
never n = false

abbrev lamp : LedDescriptor
lamp = disk_rgb "disk1" 1 2

target_found : session_target session 2 ≡ some lamp
unfolding session_target
target_found = refl

shown : (led_identify mcu session never zero_value 2 1 (world frames_shown)).0 ≡ ok tt
unfolding led_identify next_status str_is validate_target_patch has encode
shown = refl

led_identify-IsRestored_example :
    (original : LedValue) × (w₁ : LedWorld (List Bytes)) × (led_read mcu session 2
        (authorize_write mcu session (world frames_shown)).1
      ≡ (ok original, w₁))
    × IsRestored mcu session never zero_value 2 original
        (led_identify mcu session never zero_value 2 1 (world frames_shown)).1
led_identify-IsRestored_example =
    led_identify-IsRestored mcu session never zero_value 2 1 lamp (world frames_shown) target_found
      refl shown

abbrev em_dxp2800 : LedProfile
em_dxp2800 =
    mcu_profile "dxp2800-em-legacy" "DXP2800" (some (codes "EM_DXP2800_V1.0.24")) "legacy-i2c-block"
      2 rgb2 "SMBus I801 adapter"

em_dxp2800_found :
    led_profile_find (some (codes "DXP2800")) (some (codes "EM_DXP2800_V1.0.24")) ≡ some em_dxp2800
unfolding led_profile_find
em_dxp2800_found = refl

em_dxp2800-lamp : get_elem? (led_descriptors (some em_dxp2800)) 2 ≡ some lamp
unfolding led_descriptors
em_dxp2800-lamp = refl

led_profile_find_example :
    (led_descriptors (some em_dxp2800) ≡ em_dxp2800.leds)
    × (find_led 2 em_dxp2800.leds ≡ some lamp)
    × (bays_of em_dxp2800.leds ≡ count_up 1 2)
led_profile_find_example =
    led_profile_find_lem (some (codes "DXP2800")) (some (codes "EM_DXP2800_V1.0.24")) em_dxp2800 2
      lamp em_dxp2800_found em_dxp2800-lamp

em_dxp2800_matches :
    (bytes_eq (codes "DXP2800") (codes "DXP2800")
      && bytes_eq (codes "EM_DXP2800_V1.0.24") (codes "EM_DXP2800_V1.0.24"))
    ≡ true
unfolding bytes_eq
em_dxp2800_matches = refl

led_profile_find-position_example :
    led_profile_find (some (codes "DXP2800")) (some (codes "EM_DXP2800_V1.0.24")) ≡ some em_dxp2800
led_profile_find-position_example =
    led_profile_find-position (codes "DXP2800") (some (codes "EM_DXP2800_V1.0.24")) 5 em_dxp2800
      refl em_dxp2800_matches

authorized_write : Path (Result (Unit {0})) (authorize_write mcu session (world [])).0 (ok tt)
unfolding authorize_write str_is
authorized_write = refl

authorize_write-IsAllowed_example :
    (true ≡ true)
    × (true ≡ true)
    × (led_identity_confirmed (some session) false ≡ true)
    × ((current : LedIdentity) × ((mcu.read_identity []).0 ≡ ok current)
        × (same_identity session.identity current ≡ true))
    × ((mcu.owners (mcu.read_identity []).1).0 ≡ ok tt)
    × ((mcu.read_chip_id (mcu.owners (mcu.read_identity []).1).1).0 ≡ ok session.chip_id)
authorize_write-IsAllowed_example =
    authorize_write-IsAllowed mcu session (world []) false refl authorized_write
