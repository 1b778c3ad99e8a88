-- ===== src/Led/Types.antt =====
-- The data of led/led.h. Modes, colors and the sets of fields are C enums and bit masks, which can
-- hold any `unsigned int`, so they are numbers.
use ugreen_nas_hardware.Prelude.{ℕ, Bool, false, not, ◌==◌, bit_and, Option, List, Bytes}

abbrev pub mode_off : ℕ
mode_off = 0

abbrev pub mode_on : ℕ
mode_on = 1

abbrev pub mode_blink : ℕ
mode_blink = 2

abbrev pub mode_breath : ℕ
mode_breath = 3

abbrev pub color_max : ℕ
color_max = 9

abbrev pub patch_mode : ℕ
patch_mode = 1

abbrev pub patch_rgb : ℕ
patch_rgb = 2

abbrev pub patch_brightness : ℕ
patch_brightness = 4

abbrev pub patch_timing : ℕ
patch_timing = 8

abbrev pub patch_color : ℕ
patch_color = 16

-- The last four fields are those of the N76 whose registers are read directly.
pub record LedValue : Type 0 where
  pub mode : ℕ
  pub brightness : ℕ
  pub red : ℕ
  pub green : ℕ
  pub blue : ℕ
  pub on_ms : ℕ
  pub off_ms : ℕ
  pub color : ℕ
  pub unknown_fields : ℕ
  pub cached_fields : ℕ
  pub n76_mode_valid : Bool
  pub unverified_write : Bool
  pub n76_modes : ℕ × ℕ
  pub n76_version : ℕ

-- `memset(value, 0, sizeof(*value))`
abbrev pub zero_value : LedValue
zero_value = record {
  mode = 0;
  brightness = 0;
  red = 0;
  green = 0;
  blue = 0;
  on_ms = 0;
  off_ms = 0;
  color = 0;
  unknown_fields = 0;
  cached_fields = 0;
  n76_mode_valid = false;
  unverified_write = false;
  n76_modes = (0, 0);
  n76_version = 0;
}

pub record LedPatch : Type 0 where
  pub fields : ℕ
  pub value : LedValue

pub record LedDescriptor : Type 0 where
  pub name : Bytes
  pub id : ℕ
  pub bay : ℕ
  pub sysfs_name : Bytes
  pub rgb : Bool
  pub mode_mask : ℕ
  pub max_brightness : ℕ
  pub color_mask : ℕ
  pub min_on_ms : ℕ
  pub min_off_ms : ℕ
  pub min_brightness : ℕ
  pub min_breath_on_ms : ℕ
  pub min_breath_off_ms : ℕ
  pub max_cycle_ms : ℕ
  pub timing_quantum_ms : ℕ

-- Strings that may be NULL are options. The text `evidence` is left out.
pub record LedProfile : Type 0 where
  pub profile_id : Option Bytes
  pub product_name : Option Bytes
  pub product_version : Option Bytes
  pub protocol : Option Bytes
  pub disk_count : ℕ
  pub experimental : Bool
  pub leds : List LedDescriptor
  pub bus_prefix : Option Bytes
  pub i2c_address : ℕ
  pub expected_chip_id : ℕ
  pub chip_register : ℕ
  pub chip_read : ℕ
  pub sysfs_driver : Option Bytes
  pub dt_compatible : Option Bytes

-- `patch->fields & field`
unfoldable pub has : LedPatch → ℕ → Bool
has patch field = not (bit_and patch.fields field == 0)
