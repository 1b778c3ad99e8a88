-- ===== src/Disk/Firmware/Types.antt =====
-- The data of disk/firmware_profiles.h.
use ugreen_nas_hardware.Prelude.{Bool, String, List, Bytes, codes}

pub record FirmwareRule : Type 0 where
  pub slot : Bytes
  pub kind : Bytes
  pub identity : Bytes
  pub interface_type : Bytes
  pub color_led : Bool

abbrev pub rule : String → String → String → String → Bool → FirmwareRule
rule slot kind identity interface_type color_led = record {
  slot = codes slot;
  kind = codes kind;
  identity = codes identity;
  interface_type = codes interface_type;
  color_led = color_led;
}

-- `rules` has `count` elements.
pub record FirmwareLayout : Type 0 where
  pub model : Bytes
  pub revision : Bytes
  pub rules : List FirmwareRule
