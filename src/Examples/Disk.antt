-- ===== src/Examples/Disk.antt =====
-- A scan with two disks, a calibration of one bay and the rules of the DXP4800.
use ugreen_nas_hardware.Prelude.{
  Bytes, List, ℕ, ◌≡◌, ◌↔◌, ◌<◌, refl, arith, true, false, [], ◌∷◌, ◌++◌, some, none, codes, ok,
  length, get_elem?,
}
use ugreen_nas_hardware.Led.Types.{LedDescriptor, LedProfile}
use ugreen_nas_hardware.Led.Profiles.{led_profile_find}
use ugreen_nas_hardware.Led.Profiles.Table.{legacy, rgb4}
use ugreen_nas_hardware.Disk.Types.{Disk, DiskScan}
use ugreen_nas_hardware.Disk.Firmware.Types.{FirmwareRule, FirmwareLayout, rule}
use ugreen_nas_hardware.Disk.Firmware.{disk_firmware_layout}
use ugreen_nas_hardware.Disk.Firmware.RowsTo14.{rows_9_0}
use ugreen_nas_hardware.Disk.Namespaces.{coalesce_nvme_namespaces}
use ugreen_nas_hardware.Disk.Namespaces.Laws.{AreCoalesced, coalesce_nvme_namespaces-disk}
use ugreen_nas_hardware.Disk.Resolve.{disk_resolve}
use ugreen_nas_hardware.Disk.Resolve.Laws.{meant, disk_resolve_iff}
use ugreen_nas_hardware.Disk.Calibration.{Calibration, CalibrationFile, read_calibration}
use ugreen_nas_hardware.Disk.Calibration.Laws.{AreBays, read_calibration-AreBays}
use ugreen_nas_hardware.Disk.Rules.{apply_firmware_rule, firmware_slot_has_led}
use ugreen_nas_hardware.Disk.Rules.Laws.{apply_firmware_rule-lamp}

abbrev unmapped_disk : Disk
unmapped_disk = record {
  name = codes "sda";
  device = codes "/dev/sda";
  serial = codes "S1";
  wwn = [];
  topology = codes "pci-0000:00:17.0-ata-1";
  pci = codes "0000:00:17.0";
  led_id = [];
  mapping_source = [];
  ata = 1;
  ata_port = 1;
  slot = 0;
  mapped = false;
  interface_type = codes "sata";
  slot_name = [];
  led_supported = false;
}

abbrev first_disk : Disk
first_disk = record unmapped_disk {
  slot = 1;
  mapped = true;
  slot_name = codes "ata1";
  led_supported = true;
  led_id = codes "disk1";
}

abbrev disk_scan : DiskScan
disk_scan = record {
  disks =
      first_disk
      ∷ record unmapped_disk { name = codes "sdb"; device = codes "/dev/sdb"; serial = codes "S2" }
      ∷ [];
  profile_known = true;
  profile = codes "DXP4800";
  namespace_aliases = [];
}

disk_resolve_iff_example :
    (disk_resolve (some disk_scan) (some (codes "/dev/sda")) ≡ ok first_disk) ↔ (
      (meant disk_scan (codes "/dev/sda") disk_scan.disks ≡ first_disk ∷ [])
      × (true ≡ true)
      × (true ≡ true)
      × (false ≡ false))
disk_resolve_iff_example =
    disk_resolve_iff disk_scan (codes "/dev/sda") first_disk refl (omega arith) (omega arith)

chosen : disk_resolve (some disk_scan) (some (codes "/dev/sda")) ≡ ok first_disk
unfolding disk_resolve
chosen = refl

abbrev calibration_file : CalibrationFile
calibration_file = record {
  is_protected = true;
  stream = some (
    codes "model=DXP4800" ++ 10 ∷ codes "slot1 topology=pci-0000:00:17.0-ata-1" ++ 10 ∷ [],
    false,
  );
}

abbrev calibration : Calibration
calibration = record {
  bays = record { slot = 1; topology = codes "pci-0000:00:17.0-ata-1" } ∷ [];
  present = true;
}

calibrated : read_calibration true (codes "DXP4800") (ok calibration_file) ≡ ok calibration
unfolding read_calibration
calibrated = refl

read_calibration-AreBays_example :
    AreBays (codes "DXP4800") calibration.bays × (0 < length calibration.bays)
read_calibration-AreBays_example =
    read_calibration-AreBays true (codes "DXP4800") (ok calibration_file) calibration calibrated
      refl

abbrev dxp4800_profile : LedProfile
dxp4800_profile = legacy "dxp4800-legacy" "DXP4800" 4 rgb4

dxp4800_found : led_profile_find (some (codes "DXP4800")) none ≡ some dxp4800_profile
unfolding led_profile_find
dxp4800_found = refl

abbrev dxp4800_rules : FirmwareLayout
dxp4800_rules = record { model = codes "DXP4800"; revision = codes "rev1"; rules = rows_9_0 }

dxp4800_laid :
    disk_firmware_layout (some (codes "DXP4800")) (some (codes "rev1")) ≡ some dxp4800_rules
unfolding disk_firmware_layout
dxp4800_laid = refl

abbrev first_rule : FirmwareRule
first_rule = rule "ata1" "ata_id" "ata1" "sata" true

has_led : firmware_slot_has_led (codes "DXP4800") first_rule ≡ true
unfolding firmware_slot_has_led
has_led = refl

apply_firmware_rule-lamp_example :
    (j : ℕ) × (led : LedDescriptor) × (get_elem? dxp4800_profile.leds j ≡ some led)
    × (led.name ≡ (apply_firmware_rule (codes "DXP4800") first_rule unmapped_disk).led_id)
    × (led.bay ≡ (apply_firmware_rule (codes "DXP4800") first_rule unmapped_disk).slot)
    × ((apply_firmware_rule (codes "DXP4800") first_rule unmapped_disk).led_supported ≡ true)
    × ((apply_firmware_rule (codes "DXP4800") first_rule unmapped_disk).mapped ≡ true)
apply_firmware_rule-lamp_example =
    apply_firmware_rule-lamp (codes "DXP4800") (codes "rev1") none dxp4800_profile dxp4800_rules 0
      first_rule unmapped_disk dxp4800_found dxp4800_laid refl has_led

-- Two namespaces of one controller.
abbrev nvme_disk : Bytes → Disk
nvme_disk name = record unmapped_disk { name = name; interface_type = codes "nvme" }

abbrev nvme_disks : List (Disk × Bytes)
nvme_disks =
    (nvme_disk (codes "nvme0n2"), codes "/c0")
    ∷ (nvme_disk (codes "nvme0n1"), codes "/c0")
    ∷ (unmapped_disk, [])
    ∷ []

abbrev nvme_scan : DiskScan
nvme_scan = record disk_scan {
  disks = nvme_disk (codes "nvme0n1") ∷ unmapped_disk ∷ [];
  namespace_aliases =
      record { name = codes "nvme0n2"; wwn = []; disk_name = codes "nvme0n1" }
      ∷ record { name = codes "nvme0n1"; wwn = []; disk_name = codes "nvme0n1" }
      ∷ [];
}

coalesced : coalesce_nvme_namespaces nvme_disks disk_scan ≡ ok nvme_scan
unfolding coalesce_nvme_namespaces
coalesced = refl

coalesce_nvme_namespaces-disk_example : AreCoalesced nvme_disks nvme_scan
coalesce_nvme_namespaces-disk_example =
    coalesce_nvme_namespaces-disk nvme_disks disk_scan nvme_scan coalesced
