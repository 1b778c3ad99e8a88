-- ===== src/Disk/Firmware/RowsTo25.antt =====
-- The rules of disk/firmware_profiles.c, from the DXP6800 to the DXP8800 Ultra.
use ugreen_nas_hardware.Prelude.{true, false, List, [], ◌∷◌}
use ugreen_nas_hardware.Disk.Firmware.Types.{FirmwareRule, rule}

abbrev pub rows_15_0 : List FirmwareRule
rows_15_0 =
    rule "ata1" "ata_id" "ata3" "sata" true
    ∷ rule "ata2" "ata_id" "ata4" "sata" true
    ∷ rule "ata3" "ata_id" "ata5" "sata" true
    ∷ rule "ata4" "ata_id" "ata6" "sata" true
    ∷ rule "ata5" "ata_id" "ata1" "sata" true
    ∷ rule "ata6" "ata_id" "ata2" "sata" true
    ∷ rule "nvme1" "pcie_bridge_id" "8086:464d" "m2" false
    ∷ rule "nvme2" "pcie_bridge_id" "8086:51b8" "m2" false
    ∷ rule "nvme3" "pcie_bridge_id" "8086:463d" "pcie" false
    ∷ []

abbrev pub rows_16_0 : List FirmwareRule
rows_16_0 =
    rule "ata1" "ata_id" "ata3" "sata" true
    ∷ rule "ata2" "ata_id" "ata4" "sata" true
    ∷ rule "ata3" "ata_id" "ata5" "sata" true
    ∷ rule "ata4" "ata_id" "ata6" "sata" true
    ∷ rule "ata5" "ata_id" "ata1" "sata" true
    ∷ rule "ata6" "ata_id" "ata2" "sata" true
    ∷ rule "nvme1" "pcie_bridge_id" "8086:a74d" "m2" false
    ∷ rule "nvme2" "pcie_bridge_id" "8086:51b8" "m2" false
    ∷ rule "nvme3" "pcie_bridge_id" "8086:a73d" "pcie" false
    ∷ []

abbrev pub rows_17_0 : List FirmwareRule
rows_17_0 =
    rule "ata1" "ata_id" "ata3" "sata" true
    ∷ rule "ata2" "ata_id" "ata4" "sata" true
    ∷ rule "ata3" "ata_id" "ata5" "sata" true
    ∷ rule "ata4" "ata_id" "ata6" "sata" true
    ∷ rule "ata5" "ata_id" "ata1" "sata" true
    ∷ rule "ata6" "ata_id" "ata2" "sata" true
    ∷ rule "nvme1" "pcie_bridge_id" "8086:464d" "m2" false
    ∷ rule "nvme2" "pcie_bridge_id" "8086:51b8" "m2" false
    ∷ rule "nvme3" "pcie_bridge_id" "8086:463d" "pcie" false
    ∷ []

abbrev pub rows_18_0 : List FirmwareRule
rows_18_0 =
    rule "ata1" "ata_id" "ata3" "sata" true
    ∷ rule "ata2" "ata_id" "ata4" "sata" true
    ∷ rule "ata3" "ata_id" "ata5" "sata" true
    ∷ rule "ata4" "ata_id" "ata6" "sata" true
    ∷ rule "ata5" "ata_id" "ata1" "sata" true
    ∷ rule "ata6" "ata_id" "ata2" "sata" true
    ∷ rule "nvme1" "pcie_bridge_id" "8086:464d" "m2" false
    ∷ rule "nvme2" "pcie_bridge_id" "8086:51b8" "m2" false
    ∷ rule "nvme3" "pcie_bridge_id" "8086:463d" "pcie" false
    ∷ []

abbrev pub rows_19_0 : List FirmwareRule
rows_19_0 =
    rule "ata1" "ata_id" "ata3" "sata" true
    ∷ rule "ata2" "ata_id" "ata4" "sata" true
    ∷ rule "ata3" "ata_id" "ata5" "sata" true
    ∷ rule "ata4" "ata_id" "ata6" "sata" true
    ∷ rule "ata5" "ata_id" "ata1" "sata" true
    ∷ rule "ata6" "ata_id" "ata2" "sata" true
    ∷ rule "nvme1" "pcie_bridge_id" "8086:464d" "m2" false
    ∷ rule "nvme2" "pcie_bridge_id" "8086:51b8" "m2" false
    ∷ rule "nvme3" "pcie_bridge_id" "8086:463d" "pcie" false
    ∷ []

abbrev pub rows_20_0 : List FirmwareRule
rows_20_0 =
    rule "ata1" "ata_id" "ata3" "sata" true
    ∷ rule "ata2" "ata_id" "ata4" "sata" true
    ∷ rule "ata3" "ata_id" "ata5" "sata" true
    ∷ rule "ata4" "ata_id" "ata6" "sata" true
    ∷ rule "ata5" "ata_id" "ata1" "sata" true
    ∷ rule "ata6" "ata_id" "ata2" "sata" true
    ∷ rule "nvme1" "pcie_bridge_id" "8086:a74d" "m2" false
    ∷ rule "nvme2" "pcie_bridge_id" "8086:51b8" "m2" false
    ∷ rule "nvme3" "pcie_bridge_id" "8086:a73d" "pcie" false
    ∷ []

abbrev pub rows_21_0 : List FirmwareRule
rows_21_0 =
    rule "ata1" "ata_id" "ata1" "sata" true
    ∷ rule "ata2" "ata_id" "ata2" "sata" true
    ∷ rule "ata3" "ata_id" "ata3" "sata" true
    ∷ rule "ata4" "ata_id" "ata4" "sata" true
    ∷ rule "ata5" "ata_id" "ata5" "sata" true
    ∷ rule "ata6" "ata_id" "ata6" "sata" true
    ∷ rule "ata7" "ata_id" "ata7" "sata" true
    ∷ rule "ata8" "ata_id" "ata8" "sata" true
    ∷ rule "nvme1" "pcie_bridge_id" "8086:464d" "m2" false
    ∷ rule "nvme2" "pcie_bridge_id" "8086:51b8" "m2" false
    ∷ rule "nvme3" "pcie_bridge_id" "8086:463d" "pcie" false
    ∷ []

abbrev pub rows_22_0 : List FirmwareRule
rows_22_0 =
    rule "ata1" "ata_id" "ata1" "sata" true
    ∷ rule "ata2" "ata_id" "ata2" "sata" true
    ∷ rule "ata3" "ata_id" "ata3" "sata" true
    ∷ rule "ata4" "ata_id" "ata4" "sata" true
    ∷ rule "ata5" "ata_id" "ata5" "sata" true
    ∷ rule "ata6" "ata_id" "ata6" "sata" true
    ∷ rule "ata7" "ata_id" "ata7" "sata" true
    ∷ rule "ata8" "ata_id" "ata8" "sata" true
    ∷ rule "nvme1" "pcie_bridge_id" "8086:a74d" "m2" false
    ∷ rule "nvme2" "pcie_bridge_id" "8086:51b8" "m2" false
    ∷ rule "nvme3" "pcie_bridge_id" "8086:a73d" "pcie" false
    ∷ []

abbrev pub rows_23_0 : List FirmwareRule
rows_23_0 =
    rule "ata1" "ata_id" "ata1" "sata" true
    ∷ rule "ata2" "ata_id" "ata2" "sata" true
    ∷ rule "ata3" "ata_id" "ata3" "sata" true
    ∷ rule "ata4" "ata_id" "ata4" "sata" true
    ∷ rule "ata5" "ata_id" "ata5" "sata" true
    ∷ rule "ata6" "ata_id" "ata6" "sata" true
    ∷ rule "ata7" "ata_id" "ata7" "sata" true
    ∷ rule "ata8" "ata_id" "ata8" "sata" true
    ∷ rule "nvme1" "pcie_bridge_id" "8086:464d" "m2" false
    ∷ rule "nvme2" "pcie_bridge_id" "8086:51b8" "m2" false
    ∷ rule "nvme3" "pcie_bridge_id" "8086:463d" "pcie" false
    ∷ []

abbrev pub rows_24_0 : List FirmwareRule
rows_24_0 =
    rule "ata1" "ata_id" "ata1" "sata" true
    ∷ rule "ata2" "ata_id" "ata2" "sata" true
    ∷ rule "ata3" "ata_id" "ata3" "sata" true
    ∷ rule "ata4" "ata_id" "ata4" "sata" true
    ∷ rule "ata5" "ata_id" "ata5" "sata" true
    ∷ rule "ata6" "ata_id" "ata6" "sata" true
    ∷ rule "ata7" "ata_id" "ata7" "sata" true
    ∷ rule "ata8" "ata_id" "ata8" "sata" true
    ∷ rule "nvme1" "pcie_bridge_id" "8086:464d" "m2" false
    ∷ rule "nvme2" "pcie_bridge_id" "8086:51b8" "m2" false
    ∷ rule "nvme3" "pcie_bridge_id" "8086:463d" "pcie" false
    ∷ []

abbrev pub rows_25_0 : List FirmwareRule
rows_25_0 =
    rule "ata1" "ata_id" "ata1" "sata" true
    ∷ rule "ata2" "ata_id" "ata2" "sata" true
    ∷ rule "ata3" "ata_id" "ata3" "sata" true
    ∷ rule "ata4" "ata_id" "ata4" "sata" true
    ∷ rule "ata5" "ata_id" "ata5" "sata" true
    ∷ rule "ata6" "ata_id" "ata6" "sata" true
    ∷ rule "ata7" "ata_id" "ata7" "sata" true
    ∷ rule "ata8" "ata_id" "ata8" "sata" true
    ∷ rule "nvme1" "pcie_bridge_id" "8086:a74d" "m2" false
    ∷ rule "nvme2" "pcie_bridge_id" "8086:51b8" "m2" false
    ∷ rule "nvme3" "pcie_bridge_id" "8086:a73d" "pcie" false
    ∷ []
