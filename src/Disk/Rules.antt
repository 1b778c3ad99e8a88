-- ===== src/Disk/Rules.antt =====
-- The bays of the firmware's rules, disk/disk.c: `firmware_layout`, `gt_rule_revision_independent`,
-- `firmware_slot_has_led` and `apply_firmware_rule`.
pub mod Laws
use ugreen_nas_hardware.Prelude.{
  ℕ, zero, suc, ◌+◌, Bool, true, false, not, ◌&&◌, ◌||◌, List, [], ◌∷◌, ◌++◌, Option, none, some,
  ◌==◌, if◌then◌else◌, take, Bytes, bytes_eq, str_is, codes, Result, ok, err,
}
use ugreen_nas_hardware.Prelude.Scan.{is_digit, is_empty}
use ugreen_nas_hardware.Prelude.Decimal.{decimal}
use ugreen_nas_hardware.Fan.Snapshot.{after_prefix}
use ugreen_nas_hardware.Disk.Types.{Disk}
use ugreen_nas_hardware.Disk.Firmware.Types.{FirmwareRule, FirmwareLayout}
use ugreen_nas_hardware.Disk.Firmware.{disk_firmware_layout}
use ugreen_nas_hardware.Disk.Resolve.{parse_number, is_prefixed}

-- The revision of a model and whether it is known; `version` is what `read_text` gives of the DMI
-- product version.
unfoldable pub revision_of : Bytes → Result Bytes → Bytes × Bool
unfolding str_is
revision_of model version =
    if str_is model "DXP2800"
    then known_version version
    else if str_is model "DXP2800 GT"
    then (codes "rev1", false)
    else (codes "rev1", true)
  where
    known_version : Result Bytes → Bytes × Bool
    known_version (err e) = (codes "rev1", false)
    known_version (ok bios) =
        if is_empty bios
        then (codes "rev1", false)
        else if is_prefixed (after_prefix (codes "EM_") bios)
        then (codes "rev1", true)
        else (codes "rev2", true)

unfoldable pub firmware_layout : Bytes → Result Bytes → Option FirmwareLayout × Bool
unfolding revision_of disk_firmware_layout
firmware_layout model version =
    let (revision, known) = revision_of model version in
    (disk_firmware_layout (some model) (some revision), known)

abbrev same_rule : FirmwareRule → FirmwareRule → Bool
unfolding bytes_eq
same_rule rule candidate =
    bytes_eq rule.slot candidate.slot
    && bytes_eq rule.kind candidate.kind
    && bytes_eq rule.identity candidate.identity
    && bytes_eq rule.interface_type candidate.interface_type
    && (if rule.color_led then candidate.color_led else not candidate.color_led)

unfoldable pub count_rule : FirmwareRule → List FirmwareRule → ℕ
unfolding bytes_eq
count_rule rule [] = 0
count_rule rule (candidate ∷ rules) =
    let later = count_rule rule rules in if same_rule rule candidate then suc later else later

abbrev stands_once : FirmwareRule → Option FirmwareLayout → Bool
unfolding count_rule
stands_once rule none = false
stands_once rule (some layout) = count_rule rule layout.rules == 1

-- A rule that both revisions of the DXP2800 GT have.
unfoldable pub gt_rule_revision_independent : FirmwareRule → Bool
unfolding str_is count_rule disk_firmware_layout
gt_rule_revision_independent rule =
    not (str_is rule.interface_type "sata")
    && stands_once rule (disk_firmware_layout (some (codes "DXP2800 GT")) (some (codes "rev1")))
    && stands_once rule (disk_firmware_layout (some (codes "DXP2800 GT")) (some (codes "rev2")))

unfoldable pub firmware_slot_has_led : Bytes → FirmwareRule → Bool
unfolding str_is
firmware_slot_has_led model rule =
    rule.color_led
    || (str_is rule.interface_type "sata"
        && (str_is model "DH2600" || str_is model "DH2300" || str_is model "DH4300 Plus"))

-- `source`
unfoldable pub mapping_source_of : Bytes → FirmwareRule → Disk → Bytes
unfolding str_is
mapping_source_of model rule disk =
    if not (str_is rule.kind "ata_id")
    then codes "official-firmware-pci-rule"
    else if str_is model "DH2300" || str_is model "DH4300 Plus"
    then codes "firmware-of-topology"
    else if is_prefixed (after_prefix (codes "firmware-") disk.mapping_source)
    then disk.mapping_source
    else codes "firmware-ata-topology"

unfoldable pub from_digit : Bytes → Bytes
unfolding is_digit
from_digit [] = []
from_digit (c ∷ cs) = let later = from_digit cs in if is_digit c then c ∷ cs else later

-- The number of the rule's slot, `none` where it is not one.
unfoldable pub rule_number : FirmwareRule → Option ℕ
unfolding from_digit parse_number
rule_number rule = parse_number (from_digit rule.slot)

-- "disk%u"
abbrev pub led_name : ℕ → Bytes
unfolding decimal
led_name slot = codes "disk" ++ decimal slot

-- With the number of the slot; 0 is stored, but maps no bay.
unfoldable pub place_rule : Bytes → FirmwareRule → Disk → Option ℕ → Disk
unfolding str_is firmware_slot_has_led mapping_source_of decimal
place_rule model rule disk none = disk
place_rule model rule disk (some n) =
    let has_led = firmware_slot_has_led model rule in
    if n == 0 then record disk { slot = 0 } else record disk {
      slot = n;
      mapped = true;
      slot_name = take 31 rule.slot;
      interface_type = if str_is rule.interface_type "u2" then codes "u2" else disk.interface_type;
      led_supported = has_led;
      led_id = if has_led then led_name n else [];
      mapping_source = mapping_source_of model rule disk;
    }

unfoldable pub apply_firmware_rule : Bytes → FirmwareRule → Disk → Disk
unfolding place_rule rule_number
apply_firmware_rule model rule disk = place_rule model rule disk (rule_number rule)
