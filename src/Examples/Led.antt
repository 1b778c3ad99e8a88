-- ===== src/Examples/Led.antt =====
-- The theorems about LED frames, requests and plans at concrete ones.
use ugreen_nas_hardware.Prelude.{
  ℕ, ◌+◌, ◌≡◌, ◌≢◌, ◌⊎◌, ◌↔◌, inl, inr, ◌<◌, ◌≤◌, refl, arith, Bool, true, false, List, [], ◌∷◌,
  Option, none, some, Bytes, Result, ok, err, codes, ebadmsg, length, get_or, drop,
}
use ugreen_nas_hardware.Led.Types.{zero_value, LedValue, LedPatch, LedDescriptor, LedProfile, has}
use ugreen_nas_hardware.Led.Frame.{decode, encode, checksum, Parameters, word_at}
use ugreen_nas_hardware.Led.Frame.Laws.{AreBytes, decode_sound, decode_detects}
use ugreen_nas_hardware.Led.Profiles.Table.{dh2600_led, n76_profile, n76_dh2600}
use ugreen_nas_hardware.Led.Patch.{validate_target_patch}
use ugreen_nas_hardware.Led.Patch.Laws.{IsPatch, IsFit, validate_target_patch_iff}
use ugreen_nas_hardware.Led.N76.{N76Plan, n76_plan, is_dh2600, is_dxp480t, bit_of, compose}
use ugreen_nas_hardware.Led.N76.Laws.{n76_plan_sound, Fits}

-- Mode blink, white at 128, 500 ms on in a cycle of 1000 ms.
abbrev frame : Bytes
frame = 2 ∷ 128 ∷ 255 ∷ 255 ∷ 255 ∷ 3 ∷ 232 ∷ 1 ∷ 244 ∷ 5 ∷ 95 ∷ []

abbrev value : LedValue
value = record zero_value {
  mode = 2;
  brightness = 128;
  red = 255;
  green = 255;
  blue = 255;
  on_ms = 500;
  off_ms = 500;
}

decodes : decode (some frame) ≡ ok value
unfolding decode
decodes = refl

frame_bytes : AreBytes frame
frame_bytes = ground arith

decode_sound_example :
    (length frame ≡ 11)
    × (checksum frame 9 ≡ word_at frame 9)
    × (value.mode ≤ 3)
    × (value.brightness < 256)
    × (value.red < 256)
    × (value.green < 256)
    × (value.blue < 256)
    × (value.on_ms + value.off_ms ≡ word_at frame 5)
    × (value.on_ms + value.off_ms < 65536)
decode_sound_example = decode_sound frame value frame_bytes decodes

decode_detects_example :
    decode (some (2 ∷ 129 ∷ 255 ∷ 255 ∷ 255 ∷ 3 ∷ 232 ∷ 1 ∷ 244 ∷ 5 ∷ 95 ∷ [])) ≡ err ebadmsg
decode_detects_example =
    decode_detects (2 ∷ []) (255 ∷ 255 ∷ 255 ∷ 3 ∷ 232 ∷ 1 ∷ 244 ∷ 5 ∷ 95 ∷ []) 128 129 value
      decodes (omega arith) (omega arith)

abbrev parameters : Parameters
parameters = record { p0 = 255; p1 = 0; p2 = 128; p3 = 0 }

abbrev written : Bytes
written = 3 ∷ 0xa0 ∷ 1 ∷ 0 ∷ 0 ∷ 2 ∷ 255 ∷ 0 ∷ 128 ∷ 0 ∷ 2 ∷ 34 ∷ []

encodes : encode 3 2 (some parameters) ≡ ok written
unfolding encode
encodes = refl

-- Mode on with a palette color.
abbrev patch : LedPatch
patch = record { fields = 17; value = record value { mode = 1; color = 1 } }

-- The power LED of a DH2600.
abbrev power : LedDescriptor
power = dh2600_led "power" 0 0

validate_target_patch_iff_example :
    (validate_target_patch (some power) (some patch) ≡ ok tt) ↔ IsPatch patch × IsFit power patch
validate_target_patch_iff_example = validate_target_patch_iff power patch

abbrev dh2600 : LedProfile
dh2600 = n76_profile "dh2600-n76" "DH2600" 2 n76_dh2600 "leds_mcu_n76e003_dh2600"

abbrev plan : N76Plan
plan = compose true 0 patch

plans : n76_plan (some dh2600) 0 (some patch) ≡ ok plan
unfolding n76_plan ugreen_nas_hardware.Prelude.Text.str_is has
plans = refl

n76_plan_sound_example :
    (((is_dh2600 dh2600 ≡ true) × (0 ≤ 2)) ⊎ ((is_dxp480t dh2600 ≡ true) × (◌≡◌ {A = ℕ} 0 0)))
    × Fits (bit_of 0) 11 plan
n76_plan_sound_example = n76_plan_sound dh2600 0 (some patch) plan plans
