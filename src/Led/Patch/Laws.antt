-- ===== src/Led/Patch/Laws.antt =====
-- What an accepted request is.
use ugreen_nas_hardware.Prelude.{
  ℕ, ◌+◌, ◌%◌, ◌^◌, ◌≤◌, ◌≡◌, ◌≢◌, ◌⊎◌, ◌↔◌, arith, true, false, some, bit_and, ok,
}
use ugreen_nas_hardware.Led.Types.{
  LedPatch, LedDescriptor, has, mode_off, mode_on, mode_blink, mode_breath, patch_mode, patch_rgb,
  patch_brightness, patch_timing, patch_color,
}
use ugreen_nas_hardware.Led.Patch.{
  is_effect, unknown_bits, bad_values, bad_timing, validate_patch, lacks_values, contradicts,
  lacks_timing, target_accepts, validate_target_patch,
}

abbrev pub IsEffect : ℕ → Type 0
IsEffect mode = (mode ≡ mode_blink) ⊎ (mode ≡ mode_breath)

-- A request that makes sense for some LED.
pub record IsPatch (p : LedPatch) : Type 0 where
  pub something : p.fields ≢ 0
  pub known : bit_and p.fields unknown_bits ≡ 0
  pub bytes :
      has p patch_rgb ≡ true → (p.value.red ≤ 255) × (p.value.green ≤ 255) × (p.value.blue ≤ 255)
  pub level : has p patch_brightness ≡ true → p.value.brightness ≤ 255
  pub palette : has p patch_color ≡ true → (p.value.color ≤ 9) × (has p patch_rgb ≡ false)
  pub mode_known : has p patch_mode ≡ true → p.value.mode ≤ 3
  pub timed : has p patch_timing ≡ true → (has p patch_mode ≡ true) × IsEffect p.value.mode
  pub effect_timed : has p patch_mode ≡ true → IsEffect p.value.mode → has p patch_timing ≡ true
  pub cycle : has p patch_timing ≡ true → p.value.on_ms + p.value.off_ms ≤ 65535

-- A request is accepted exactly if it makes sense for some LED.
pub validate_patch_iff : (p : LedPatch) → (validate_patch (some p) ≡ ok tt) ↔ IsPatch p
unfolding validate_patch bad_values bad_timing is_effect
validate_patch_iff p = ground arith

-- The values and the mode that this LED must have for the request.
pub record HasValues (t : LedDescriptor) (p : LedPatch) : Type 0 where
  pub has_rgb : has p patch_rgb ≡ true → t.rgb ≡ true
  pub has_color : has p patch_color ≡ true → bit_and t.color_mask (2 ^ p.value.color) ≢ 0
  pub has_mode : has p patch_mode ≡ true → bit_and t.mode_mask (2 ^ p.value.mode) ≢ 0
  pub has_level :
      has p patch_brightness ≡ true
      → (1 ≤ t.max_brightness)
        × (t.min_brightness ≤ p.value.brightness)
        × (p.value.brightness ≤ t.max_brightness)

-- A LED with one level is on with brightness 1 and off with brightness 0.
abbrev pub IsCoherent : LedDescriptor → LedPatch → Type 0
IsCoherent t p =
    t.rgb ≡ false
    → t.max_brightness ≡ 1
    → has p patch_mode ≡ true
    → has p patch_brightness ≡ true
    → ((p.value.mode ≡ mode_off) → (p.value.brightness ≡ 0))
      × ((p.value.mode ≡ mode_on) → (p.value.brightness ≡ 1))

-- The durations that this LED must have for the request.
pub record HasTiming (t : LedDescriptor) (p : LedPatch) : Type 0 where
  pub blink_slow :
      has p patch_timing ≡ true
      → p.value.mode ≡ mode_blink
      → (t.min_on_ms ≤ p.value.on_ms) × (t.min_off_ms ≤ p.value.off_ms)
  pub breath_slow :
      has p patch_timing ≡ true
      → p.value.mode ≡ mode_breath
      → (t.min_breath_on_ms ≤ p.value.on_ms) × (t.min_breath_off_ms ≤ p.value.off_ms)
  pub cycle_short :
      has p patch_timing ≡ true
      → t.max_cycle_ms ≢ 0
      → p.value.on_ms + p.value.off_ms ≤ t.max_cycle_ms
  pub quantum :
      has p patch_timing ≡ true
      → t.timing_quantum_ms ≢ 0
      → (p.value.on_ms % t.timing_quantum_ms ≡ 0) × (p.value.off_ms % t.timing_quantum_ms ≡ 0)

lacks_values_iff : (t : LedDescriptor) (p : LedPatch) → (lacks_values t p ≡ false) ↔ HasValues t p
unfolding lacks_values
lacks_values_iff t p = ground arith

contradicts_iff :
    (t : LedDescriptor) (p : LedPatch) → HasValues t p → (contradicts t p ≡ false) ↔ IsCoherent t p
unfolding contradicts
contradicts_iff t p h = ground arith

lacks_timing_iff :
    (t : LedDescriptor) (p : LedPatch)
    → (has p patch_timing ≡ true → p.value.on_ms + p.value.off_ms ≤ 65535)
    → (lacks_timing t p ≡ false) ↔ HasTiming t p
unfolding lacks_timing
lacks_timing_iff t p h = ground arith

abbrev pub IsFit : LedDescriptor → LedPatch → Type 0
IsFit t p = HasValues t p × IsCoherent t p × HasTiming t p

target_accepts_iff :
    (t : LedDescriptor) (p : LedPatch) → IsPatch p → (target_accepts (some t) p ≡ ok tt) ↔ IsFit t p
unfolding target_accepts
target_accepts_iff t p h =
    ground (arith, lacks_values_iff t p, contradicts_iff t p, lacks_timing_iff t p h.cycle)

-- A LED accepts exactly the requests that make sense and that it can do: the colors, modes,
-- brightness and durations it has, without a mode and brightness that contradict each other.
pub validate_target_patch_iff :
    (t : LedDescriptor) (p : LedPatch)
    → (validate_target_patch (some t) (some p) ≡ ok tt) ↔ IsPatch p × IsFit t p
unfolding validate_target_patch
validate_target_patch_iff t p = ground (arith, validate_patch_iff p, target_accepts_iff t p)
