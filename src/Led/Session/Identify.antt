-- ===== src/Led/Session/Identify.antt =====
-- Showing which LED is which, led/led.c: `ugreenctl_led_identify` blinks a LED and restores it.
-- `cancelled n` is the flag of the caller when it is looked at for the n-th time, false for NULL;
-- `scratch` stands for the contents of the variable `current` before it is written.
use ugreen_nas_hardware.Prelude.{
  ℕ, zero, suc, ◌+◌, ◌*◌, ◌%◌, Bool, not, ◌||◌, ◌&&◌, Option, none, some, ltb, ◌==◌, if◌then◌else◌,
  bit_and, Result, ok, err, and_then, einval, eio, enotsup,
}
use ugreen_nas_hardware.Led.Types.{
  LedValue, zero_value, LedPatch, LedDescriptor, patch_mode, patch_rgb, patch_brightness,
  patch_timing, patch_color, mode_off, mode_on, mode_blink,
}
use ugreen_nas_hardware.Led.Session.{
  LedIo, LedSession, LedWorld, pause, authorize_write, session_target,
}
use ugreen_nas_hardware.Led.Session.Read.{led_read}
use ugreen_nas_hardware.Led.Session.Write.{led_apply}

abbrev pub all_fields : ℕ
all_fields = patch_rgb + patch_brightness + patch_mode + patch_timing

-- Orange, blinking twice a second.
abbrev pub blink_patch : LedPatch
blink_patch = record {
  fields = all_fields;
  value = record zero_value {
    mode = mode_blink;
    red = 255;
    green = 100;
    brightness = 255;
    on_ms = 250;
    off_ms = 250;
  };
}

abbrev pub is_steady : ℕ → Bool
is_steady mode = (mode == mode_off) || (mode == mode_on)

-- The durations of a steady LED are restored in an effect, before the mode.
abbrev pub restored_mode : LedValue → ℕ
restored_mode original = if is_steady original.mode then mode_blink else original.mode

abbrev pub restore_patch : LedValue → LedPatch
restore_patch original = record {
  fields = all_fields;
  value = record original { mode = restored_mode original };
}

abbrev pub restore_mode_patch : LedValue → LedPatch
restore_mode_patch original = record { fields = patch_mode; value = original }

-- The seven fields that are compared after the restoration.
unfoldable pub same_state : LedValue → LedValue → Bool
same_state current original =
    (current.mode == original.mode)
    && (current.brightness == original.brightness)
    && (current.red == original.red)
    && (current.green == original.green)
    && (current.blue == original.blue)
    && (current.on_ms == original.on_ms)
    && (current.off_ms == original.off_ms)

abbrev pub has_unknown : LedValue → ℕ → Bool
has_unknown value fields = not (bit_and value.unknown_fields fields == 0)

-- Outputs of a LED without RGB that can be restored.
unfoldable pub restorable : LedValue → Bool
restorable saved =
    not (has_unknown saved (patch_mode + patch_brightness))
    && not ((saved.mode == mode_on) && has_unknown saved patch_color)
    && is_steady saved.mode

-- On at even ticks, in the color that it has, or white; off at odd ones.
abbrev pub tick_patch : LedValue → ℕ → LedPatch
tick_patch saved tick =
    if tick % 2 == 1
    then record { fields = patch_mode; value = record zero_value { mode = mode_off } }
    else record {
      fields = patch_mode + patch_color;
      value = record zero_value {
        mode = mode_on;
        color = if saved.mode == mode_on then saved.color else 1;
      };
    }

abbrev pub binary_restore_patch : LedValue → LedPatch
binary_restore_patch saved = record {
  fields = if saved.mode == mode_on then patch_mode + patch_color else patch_mode;
  value = saved;
}

unfoldable pub same_outputs : LedValue → LedValue → Bool
same_outputs current saved =
    (current.mode == saved.mode)
    && (current.brightness == saved.brightness)
    && not ((saved.mode == mode_on) && not (current.color == saved.color))

unfoldable pub check_restored :
    {Mcu : Type 0} → LedValue → Result LedValue × LedWorld Mcu → Result (Unit {0}) × LedWorld Mcu
unfolding same_state
check_restored original r =
    and_then r (λ current w. (if same_state current original then ok tt else err eio, w))

-- The result of blinking counts once the LED is restored.
abbrev pub unless_failed :
    {Mcu A : Type 0}
    → Result A
    → Result (Unit {0}) × LedWorld Mcu
    → Result (Unit {0}) × LedWorld Mcu
unless_failed result (err e, w) = (err e, w)
unless_failed (err e) (ok _, w) = (err e, w)
unless_failed (ok a) (ok _, w) = (ok tt, w)

module _ {Mcu : Type 0} (io : LedIo Mcu) (s : LedSession) (cancelled : ℕ → Bool)
    (scratch : LedValue) where
  abbrev pub apply_now : ℕ → LedPatch → LedWorld Mcu → Result LedValue × LedWorld Mcu
  apply_now id p w = led_apply io s id (some p) (some scratch) w

  -- At most `left` ticks of a tenth of a second.
  unfoldable pub wait_ticks : ℕ → ℕ → LedWorld Mcu → LedWorld Mcu
  wait_ticks zero tick w = w
  wait_ticks (suc left) tick w =
      let longer = wait_ticks left (suc tick) (pause io 100 w) in
      if cancelled tick then w else longer

  -- After the attempt to blink.
  abbrev pub after_blink : ℕ → Result LedValue × LedWorld Mcu → LedWorld Mcu
  after_blink seconds (err e, w) = w
  after_blink seconds (ok value, w) = wait_ticks (seconds * 10) 0 w

  -- Everything, and then the mode of a steady LED; what is read back must be the original state.
  unfoldable pub restore : ℕ → LedValue → LedWorld Mcu → Result LedValue × LedWorld Mcu
  unfolding led_apply
  restore id original w = and_then (apply_now id (restore_patch original) w) (λ current w₁.
      if restored_mode original == original.mode
      then (ok current, w₁)
      else apply_now id (restore_mode_patch original) w₁)

  -- With the state that was read.
  unfoldable pub blink_and_restore :
      ℕ → ℕ → LedValue → LedWorld Mcu → Result (Unit {0}) × LedWorld Mcu
  unfolding wait_ticks restore check_restored
  blink_and_restore id seconds original w =
      let blinked = apply_now id blink_patch w in
      unless_failed blinked.0
        (check_restored original (restore id original (after_blink seconds blinked)))

  unfoldable pub identify_rgb : ℕ → ℕ → LedWorld Mcu → Result (Unit {0}) × LedWorld Mcu
  unfolding led_read blink_and_restore
  identify_rgb id seconds w =
      and_then (led_read io s id w) (λ original w₁. blink_and_restore id seconds original w₁)

  -- `left` ticks more of a quarter of a second.
  unfoldable pub binary_ticks :
      ℕ → LedValue → ℕ → ℕ → LedWorld Mcu → Result (Unit {0}) × LedWorld Mcu
  unfolding led_apply
  binary_ticks id saved zero tick w = (ok tt, w)
  binary_ticks id saved (suc left) tick w =
      and_then (apply_now id (tick_patch saved tick) w) (λ _ w₁.
        let longer = binary_ticks id saved left (suc tick) (pause io 250 w₁) in
        if cancelled tick then (ok tt, w₁) else longer)

  unfoldable pub restore_binary : ℕ → LedValue → LedWorld Mcu → Result (Unit {0}) × LedWorld Mcu
  unfolding same_outputs led_apply
  restore_binary id saved w =
      and_then (apply_now id (binary_restore_patch saved) w)
        (λ current w'. (if same_outputs current saved then ok tt else err eio, w'))

  unfoldable pub identify_binary : ℕ → ℕ → LedWorld Mcu → Result (Unit {0}) × LedWorld Mcu
  unfolding led_read restorable binary_ticks restore_binary
  identify_binary id seconds w = and_then (led_read io s id w) (λ saved w₁.
      let (result, w₂) = binary_ticks id saved (seconds * 4) 0 w₁ in
      if not (restorable saved)
      then (err enotsup, w₁)
      else unless_failed result (restore_binary id saved w₂))

  abbrev pub identify_target :
      Option LedDescriptor → ℕ → ℕ → LedWorld Mcu → Result (Unit {0}) × LedWorld Mcu
  identify_target none id seconds w = (err einval, w)
  identify_target (some led) id seconds w =
      if led.rgb then identify_rgb id seconds w else identify_binary id seconds w

  unfoldable pub led_identify : ℕ → ℕ → LedWorld Mcu → Result (Unit {0}) × LedWorld Mcu
  unfolding authorize_write session_target identify_rgb identify_binary
  led_identify id seconds w =
      if ltb seconds 1 || ltb 60 seconds
      then (err einval, w)
      else and_then (authorize_write io s w)
          (λ _ w₁. identify_target (session_target s id) id seconds w₁)
