-- ===== src/Disk/Firmware/RowsTo14.antt =====
-- The rules of disk/firmware_profiles.c, up to the DXP4900.
use ugreen_nas_hardware.Prelude.{true, false, List, [], ◌∷◌}
use ugreen_nas_hardware.Disk.Firmware.Types.{FirmwareRule, rule}

abbrev pub rows_0_0 : List FirmwareRule
rows_0_0 =
    rule "ata1" "ata_id" "ata2" "sata" false
    ∷ rule "ata2" "ata_id" "ata1" "sata" false
    ∷ rule "nvme1" "block_name" "nvme0n1" "m2" false
    ∷ rule "nvme2" "block_name" "nvme1n1" "m2" false
    ∷ []

abbrev pub rows_1_0 : List FirmwareRule
rows_1_0 =
    rule "ata1" "ata_id" "ata1" "sata" true
    ∷ rule "ata2" "ata_id" "ata2" "sata" true
    ∷ rule "nvme1" "block_name" "nvme0n1" "m2" false
    ∷ rule "nvme2" "block_name" "nvme1n1" "m2" false
    ∷ []

abbrev pub rows_1_1 : List FirmwareRule
rows_1_1 =
    rule "ata1" "ata_id" "ata1" "sata" true
    ∷ rule "ata2" "ata_id" "ata2" "sata" true
    ∷ rule "nvme1" "block_name" "nvme0n1" "m2" false
    ∷ rule "nvme2" "block_name" "nvme1n1" "m2" false
    ∷ []

abbrev pub rows_2_0 : List FirmwareRule
rows_2_0 =
    rule "ata1" "ata_id" "ata1" "sata" true
    ∷ rule "ata2" "ata_id" "ata2" "sata" true
    ∷ rule "nvme1" "block_name" "nvme0n1" "m2" false
    ∷ rule "nvme2" "block_name" "nvme1n1" "m2" false
    ∷ []

abbrev pub rows_3_0 : List FirmwareRule
rows_3_0 =
    rule "ata1" "ata_id" "ata1" "sata" true
    ∷ rule "ata2" "ata_id" "ata2" "sata" true
    ∷ rule "ata3" "ata_id" "ata3" "sata" true
    ∷ rule "ata4" "ata_id" "ata4" "sata" true
    ∷ rule "nvme1" "block_name" "nvme0n1" "m2" false
    ∷ rule "nvme2" "block_name" "nvme1n1" "m2" false
    ∷ []

abbrev pub rows_4_0 : List FirmwareRule
rows_4_0 =
    rule "ata1" "syspath" "devices/pci0000:00/0000:00:08.2|ata1" "sata" true
    ∷ rule "ata2" "syspath" "devices/pci0000:00/0000:00:08.2|ata2" "sata" true
    ∷ rule "ata1" "syspath" "devices/pci0000:00/0000:00:01.1|nvme" "u2" true
    ∷ rule "ata2" "syspath" "devices/pci0000:00/0000:00:01.2|nvme" "u2" true
    ∷ rule "nvme1" "syspath" "devices/pci0000:00/0000:00:01.6|nvme" "m2" false
    ∷ rule "nvme2" "syspath" "devices/pci0000:00/0000:00:01.3|nvme" "m2" false
    ∷ []

abbrev pub rows_4_1 : List FirmwareRule
rows_4_1 =
    rule "ata1" "syspath" "devices/pci0000:00/0000:00:08.2|ata2" "sata" true
    ∷ rule "ata2" "syspath" "devices/pci0000:00/0000:00:08.2|ata1" "sata" true
    ∷ rule "ata1" "syspath" "devices/pci0000:00/0000:00:01.1|nvme" "u2" true
    ∷ rule "ata2" "syspath" "devices/pci0000:00/0000:00:01.2|nvme" "u2" true
    ∷ rule "nvme1" "syspath" "devices/pci0000:00/0000:00:01.6|nvme" "m2" false
    ∷ rule "nvme2" "syspath" "devices/pci0000:00/0000:00:01.3|nvme" "m2" false
    ∷ []

abbrev pub rows_5_0 : List FirmwareRule
rows_5_0 =
    rule "ata1" "ata_id" "ata1" "sata" true
    ∷ rule "ata2" "ata_id" "ata2" "sata" true
    ∷ rule "ata3" "ata_id" "ata3" "sata" true
    ∷ rule "ata4" "ata_id" "ata4" "sata" true
    ∷ rule "nvme1" "block_name" "nvme0n1" "m2" false
    ∷ rule "nvme2" "block_name" "nvme1n1" "m2" false
    ∷ []

abbrev pub rows_6_0 : List FirmwareRule
rows_6_0 =
    rule "ata1" "ata_id" "ata1" "sata" true
    ∷ rule "ata2" "ata_id" "ata2" "sata" true
    ∷ rule "ata3" "ata_id" "ata3" "sata" true
    ∷ rule "ata4" "ata_id" "ata4" "sata" true
    ∷ rule "nvme1" "block_name" "nvme0n1" "m2" false
    ∷ rule "nvme2" "block_name" "nvme1n1" "m2" false
    ∷ []

abbrev pub rows_7_0 : List FirmwareRule
rows_7_0 =
    rule "ata1" "ata_id" "ata1" "sata" true
    ∷ rule "ata2" "ata_id" "ata2" "sata" true
    ∷ rule "ata3" "ata_id" "ata3" "sata" true
    ∷ rule "ata4" "ata_id" "ata4" "sata" true
    ∷ rule "nvme1" "block_name" "nvme0n1" "m2" false
    ∷ rule "nvme2" "block_name" "nvme1n1" "m2" false
    ∷ []

abbrev pub rows_8_0 : List FirmwareRule
rows_8_0 =
    rule "ata1" "ata_id" "ata1" "sata" true
    ∷ rule "ata2" "ata_id" "ata2" "sata" true
    ∷ rule "ata3" "ata_id" "ata3" "sata" true
    ∷ rule "ata4" "ata_id" "ata4" "sata" true
    ∷ rule "nvme1" "pcie_bridge_id" "8086:4db8" "m2" false
    ∷ rule "nvme2" "pcie_bridge_id" "8086:4dbf" "m2" false
    ∷ []

abbrev pub rows_9_0 : List FirmwareRule
rows_9_0 =
    rule "ata1" "ata_id" "ata1" "sata" true
    ∷ rule "ata2" "ata_id" "ata2" "sata" true
    ∷ rule "ata3" "ata_id" "ata3" "sata" true
    ∷ rule "ata4" "ata_id" "ata4" "sata" true
    ∷ rule "nvme1" "block_name" "nvme0n1" "m2" false
    ∷ rule "nvme2" "block_name" "nvme1n1" "m2" false
    ∷ []

abbrev pub rows_10_0 : List FirmwareRule
rows_10_0 =
    rule "ata1" "ata_id" "ata1" "sata" true
    ∷ rule "ata2" "ata_id" "ata2" "sata" true
    ∷ rule "ata3" "ata_id" "ata3" "sata" true
    ∷ rule "ata4" "ata_id" "ata4" "sata" true
    ∷ rule "nvme1" "block_name" "nvme0n1" "m2" false
    ∷ rule "nvme2" "block_name" "nvme1n1" "m2" false
    ∷ []

abbrev pub rows_11_0 : List FirmwareRule
rows_11_0 =
    rule "ata1" "ata_id" "ata1" "sata" true
    ∷ rule "ata2" "ata_id" "ata2" "sata" true
    ∷ rule "ata3" "ata_id" "ata3" "sata" true
    ∷ rule "ata4" "ata_id" "ata4" "sata" true
    ∷ rule "nvme1" "pcie_bridge_id" "8086:463d" "m2" false
    ∷ rule "nvme2" "pcie_bridge_id" "8086:464d" "m2" false
    ∷ []

abbrev pub rows_12_0 : List FirmwareRule
rows_12_0 =
    rule "ata1" "ata_id" "ata1" "sata" true
    ∷ rule "ata2" "ata_id" "ata2" "sata" true
    ∷ rule "ata3" "ata_id" "ata3" "sata" true
    ∷ rule "ata4" "ata_id" "ata4" "sata" true
    ∷ rule "nvme1" "pcie_bridge_id" "8086:a73d" "m2" false
    ∷ rule "nvme2" "pcie_bridge_id" "8086:a74d" "m2" false
    ∷ []

abbrev pub rows_12_1 : List FirmwareRule
rows_12_1 =
    rule "ata1" "ata_id" "ata1" "sata" true
    ∷ rule "ata2" "ata_id" "ata2" "sata" true
    ∷ rule "ata3" "ata_id" "ata3" "sata" true
    ∷ rule "ata4" "ata_id" "ata4" "sata" true
    ∷ rule "nvme1" "pcie_bridge_id" "8086:a73d" "m2" false
    ∷ rule "nvme2" "pcie_bridge_id" "8086:a74d" "m2" false
    ∷ []

abbrev pub rows_13_0 : List FirmwareRule
rows_13_0 =
    rule "ata1" "syspath" "devices/pci0000:00/0000:00:01.2|ata1" "sata" true
    ∷ rule "ata2" "syspath" "devices/pci0000:00/0000:00:01.2|ata2" "sata" true
    ∷ rule "ata3" "syspath" "devices/pci0000:00/0000:00:01.2|ata3" "sata" true
    ∷ rule "ata4" "syspath" "devices/pci0000:00/0000:00:01.2|ata4" "sata" true
    ∷ rule "ata1" "syspath" "devices/pci0000:00/0000:00:01.1|nvme" "u2" true
    ∷ rule "ata2" "syspath" "devices/pci0000:00/0000:00:01.3|nvme" "u2" true
    ∷ rule "nvme1" "syspath" "devices/pci0000:00/0000:00:01.6|nvme" "m2" false
    ∷ rule "nvme2" "syspath" "devices/pci0000:00/0000:00:01.4|nvme" "m2" false
    ∷ []

abbrev pub rows_14_0 : List FirmwareRule
rows_14_0 =
    rule "ata1" "syspath" "devices/pci0000:00/0000:00:06.0|ata1" "sata" true
    ∷ rule "ata2" "syspath" "devices/pci0000:00/0000:00:06.0|ata2" "sata" true
    ∷ rule "ata3" "syspath" "devices/pci0000:00/0000:00:06.0|ata3" "sata" true
    ∷ rule "ata4" "syspath" "devices/pci0000:00/0000:00:06.0|ata4" "sata" true
    ∷ rule "nvme1" "syspath" "devices/pci0000:00/0000:00:1c.2|nvme" "m2" false
    ∷ rule "nvme2" "syspath" "devices/pci0000:00/0000:00:1c.3|nvme" "m2" false
    ∷ []
