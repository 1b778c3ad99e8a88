-- ===== src/Led/Patch.antt =====
-- Which requests a LED accepts, led/led_protocol.c. The text for the user is left out.
pub mod Laws
use ugreen_nas_hardware.Prelude.{
  ℕ, ◌+◌, ◌-◌, ◌%◌, ◌^◌, Bool, true, false, not, ◌&&◌, ◌||◌, Option, none, some, ltb, leb, ◌==◌,
  if◌then◌else◌, bit_and, u32, str_is, Bytes, Result, ok, err, ◌>>=◌, einval, enotsup,
}
use ugreen_nas_hardware.Led.Types.{
  LedValue, LedPatch, LedDescriptor, LedProfile, has, mode_off, mode_on, mode_blink, mode_breath,
  color_max, patch_mode, patch_rgb, patch_brightness, patch_timing, patch_color,
}

-- `~known`
abbrev pub unknown_bits : ℕ
unknown_bits = 0xffffffff - 31

-- Effects that have durations.
unfoldable pub is_effect : ℕ → Bool
is_effect mode = (mode == mode_blink) || (mode == mode_breath)

-- The tests of the values that are asked for.
unfoldable pub bad_values : LedPatch → Bool
bad_values p =
    let v = p.value in
    (has p patch_rgb && (ltb 255 v.red || ltb 255 v.green || ltb 255 v.blue))
    || (has p patch_brightness && ltb 255 v.brightness)
    || (has p patch_color && (ltb color_max v.color || has p patch_rgb))
    || (has p patch_mode && (ltb v.mode mode_off || ltb mode_breath v.mode))

-- The tests of the durations and of the effects that need them.
unfoldable pub bad_timing : LedPatch → Bool
unfolding is_effect
bad_timing p =
    let v = p.value in
    (has p patch_timing && (not (has p patch_mode) || not (is_effect v.mode)))
    || (has p patch_mode && is_effect v.mode && not (has p patch_timing))
    || (has p patch_timing
        && (ltb 65535 v.on_ms || ltb 65535 v.off_ms || ltb (65535 - v.off_ms) v.on_ms))

unfoldable pub validate_patch : Option LedPatch → Result (Unit {0})
unfolding bad_values bad_timing
validate_patch none = err einval
validate_patch (some p) =
    if (p.fields == 0) || not (bit_and p.fields unknown_bits == 0) || bad_values p || bad_timing p
    then err einval
    else ok tt

-- The values and modes that this LED does not have.
unfoldable pub lacks_values : LedDescriptor → LedPatch → Bool
lacks_values t p =
    let v = p.value in
    (has p patch_rgb && not t.rgb)
    || (has p patch_color && (bit_and t.color_mask (2 ^ v.color) == 0))
    || (has p patch_mode && (bit_and t.mode_mask (2 ^ v.mode) == 0))
    || (has p patch_brightness && (t.max_brightness == 0))
    || (has p patch_brightness && ltb t.max_brightness v.brightness)
    || (has p patch_brightness && ltb v.brightness t.min_brightness)

-- A LED with one level can not be on with brightness 0 or off with brightness 1.
unfoldable pub contradicts : LedDescriptor → LedPatch → Bool
contradicts t p =
    let v = p.value in
    not t.rgb
    && (t.max_brightness == 1)
    && has p patch_mode
    && has p patch_brightness
    && leb v.mode mode_on
    && (if v.mode == mode_on then v.brightness == 0 else not (v.brightness == 0))

-- The durations that this LED does not have.
unfoldable pub lacks_timing : LedDescriptor → LedPatch → Bool
lacks_timing t p =
    let v = p.value in
    (has p patch_timing
      && (v.mode == mode_blink)
      && (ltb v.on_ms t.min_on_ms || ltb v.off_ms t.min_off_ms))
    || (has p patch_timing
        && (v.mode == mode_breath)
        && (ltb v.on_ms t.min_breath_on_ms || ltb v.off_ms t.min_breath_off_ms))
    || (has p patch_timing
        && not (t.max_cycle_ms == 0)
        && ltb t.max_cycle_ms (u32 (v.on_ms + v.off_ms)))
    || (has p patch_timing
        && not (t.timing_quantum_ms == 0)
        && (not (v.on_ms % t.timing_quantum_ms == 0) || not (v.off_ms % t.timing_quantum_ms == 0)))

-- The answer about a target that is there; `none` is a target that is not.
unfoldable pub target_accepts : Option LedDescriptor → LedPatch → Result (Unit {0})
unfolding lacks_values contradicts lacks_timing
target_accepts none p = err enotsup
target_accepts (some t) p =
    if lacks_values t p || contradicts t p || lacks_timing t p then err enotsup else ok tt

unfoldable pub validate_target_patch : Option LedDescriptor → Option LedPatch → Result (Unit {0})
unfolding validate_patch target_accepts
validate_target_patch target none = err einval
validate_target_patch target (some p) = validate_patch (some p) >>= λ _. target_accepts target p

-- The rules of the N76, on top of a LED's own.
unfoldable pub n76_refuses : LedDescriptor → LedValue → LedPatch → Bool
n76_refuses t before p =
    let mode = if has p patch_mode then p.value.mode else before.mode in
    let color = if has p patch_color then p.value.color else before.color in
    let unknown = λ (field : ℕ). not (bit_and before.unknown_fields field == 0) in
    (not (has p patch_mode)
      && (unknown patch_mode || (not (mode == mode_on) && not (mode == mode_off))))
    || (ltb 1 t.max_brightness && has p patch_brightness && (p.value.brightness == 1))
    || (((mode == mode_on) || (mode == mode_blink))
        && not (has p patch_color)
        && unknown patch_color)
    || ((mode == mode_on) && (color == 0))
    || ((mode == mode_blink) && not (color == 1) && not (color == 2))

-- `profile->protocol`, or NULL without a profile.
abbrev pub protocol_of : Option LedProfile → Option Bytes
protocol_of none = none
protocol_of (some profile) = profile.protocol

-- After a target has accepted the patch; the first argument is `profile->protocol`.
unfoldable pub state_accepts :
    Option Bytes → Option LedDescriptor → Option LedValue → LedPatch → Result (Unit {0})
unfolding n76_refuses
state_accepts (some protocol) (some t) (some before) p =
    if not (str_is protocol "sysfs-n76")
    then ok tt
    else if n76_refuses t before p
    then err enotsup
    else ok tt
state_accepts _ _ _ p = err einval

unfoldable pub validate_state_patch :
    Option LedProfile → Option LedDescriptor → Option LedValue → Option LedPatch → Result (Unit {0})
unfolding validate_target_patch state_accepts
validate_state_patch profile target before none = err einval
validate_state_patch profile target before (some p) = validate_target_patch target (some p) >>= λ _.
    state_accepts (protocol_of profile) target before p
