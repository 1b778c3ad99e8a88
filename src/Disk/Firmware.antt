-- ===== src/Disk/Firmware.antt =====
-- The layouts of disk/firmware_profiles.c and their lookup.
pub mod Types
pub mod RowsTo14
pub mod RowsTo25
pub mod RowsTo33
use ugreen_nas_hardware.Prelude.{
  Bool, true, false, ◌&&◌, List, [], ◌∷◌, Option, none, some, if◌then◌else◌, Bytes, bytes_eq, codes,
  String,
}
use Types.{FirmwareRule, FirmwareLayout}
use RowsTo14.{
  rows_0_0, rows_1_0, rows_1_1, rows_2_0, rows_3_0, rows_4_0, rows_4_1, rows_5_0, rows_6_0,
  rows_7_0, rows_8_0, rows_9_0, rows_10_0, rows_11_0, rows_12_0, rows_12_1, rows_13_0, rows_14_0,
}
use RowsTo25.{
  rows_15_0, rows_16_0, rows_17_0, rows_18_0, rows_19_0, rows_20_0, rows_21_0, rows_22_0, rows_23_0,
  rows_24_0, rows_25_0,
}
use RowsTo33.{
  rows_26_0, rows_27_0, rows_28_0, rows_29_0, rows_30_0, rows_32_0, rows_32_1, rows_32_2, rows_33_0,
  rows_33_1,
}

abbrev layout : String → String → List FirmwareRule → FirmwareLayout
layout model revision rules = record {
  model = codes model;
  revision = codes revision;
  rules = rules;
}

abbrev pub layouts : List FirmwareLayout
layouts =
    layout "DH2600" "rev1" rows_0_0
    ∷ layout "DXP2800" "rev1" rows_1_0
    ∷ layout "DXP2800" "rev2" rows_1_1
    ∷ layout "DXP2800S" "rev1" rows_2_0
    ∷ layout "DX4600 Pro" "rev1" rows_3_0
    ∷ layout "DXP2800 GT" "rev1" rows_4_0
    ∷ layout "DXP2800 GT" "rev2" rows_4_1
    ∷ layout "DX4600+" "rev1" rows_5_0
    ∷ layout "DX4600" "rev1" rows_6_0
    ∷ layout "DX4700" "rev1" rows_7_0
    ∷ layout "DX4700+" "rev1" rows_8_0
    ∷ layout "DXP4800" "rev1" rows_9_0
    ∷ layout "DXP4800S" "rev1" rows_10_0
    ∷ layout "DXP4800 Plus" "rev1" rows_11_0
    ∷ layout "DXP4800 Pro" "rev1" rows_12_0
    ∷ layout "DXP4800 Pro" "rev2" rows_12_1
    ∷ layout "DXP4800 GT" "rev1" rows_13_0
    ∷ layout "DXP4900" "rev1" rows_14_0
    ∷ layout "DXP6800" "rev1" rows_15_0
    ∷ layout "DXP6800S" "rev1" rows_16_0
    ∷ layout "DXP6800 Plus" "rev1" rows_17_0
    ∷ layout "DXP6800 Pro" "rev1" rows_18_0
    ∷ layout "FORT 6" "rev1" rows_19_0
    ∷ layout "DXP6800 Ultra" "rev1" rows_20_0
    ∷ layout "DXP8800" "rev1" rows_21_0
    ∷ layout "DXP8800S" "rev1" rows_22_0
    ∷ layout "DXP8800 Plus" "rev1" rows_23_0
    ∷ layout "DXP8800 Pro" "rev1" rows_24_0
    ∷ layout "DXP8800 Ultra" "rev1" rows_25_0
    ∷ layout "DXP480T Plus" "rev1" rows_26_0
    ∷ layout "iDX6011" "rev1" rows_27_0
    ∷ layout "iDX6012" "rev1" rows_28_0
    ∷ layout "iDX6011 Pro" "rev1" rows_29_0
    ∷ layout "iDX6021" "rev1" rows_30_0
    ∷ layout "DH2300" "rev1" rows_32_0
    ∷ layout "DH2300" "rev2" rows_32_1
    ∷ layout "DH2300" "rev3" rows_32_2
    ∷ layout "DH4300 Plus" "rev1" rows_33_0
    ∷ layout "DH4300 Plus" "rev2" rows_33_1
    ∷ []

unfoldable pub find_layout : Bytes → Bytes → List FirmwareLayout → Option FirmwareLayout
unfolding bytes_eq
find_layout model revision [] = none
find_layout model revision (first ∷ rest) =
    let later = find_layout model revision rest in
    if bytes_eq model first.model && bytes_eq revision first.revision then some first else later

-- A text that is NULL is `none`.
unfoldable pub disk_firmware_layout : Option Bytes → Option Bytes → Option FirmwareLayout
unfolding find_layout
disk_firmware_layout (some model) (some revision) = find_layout model revision layouts
disk_firmware_layout _ _ = none
