-- ===== src/Disk/Firmware/RowsTo33.antt =====
-- The rules of disk/firmware_profiles.c, from the DXP480T Plus on.
use ugreen_nas_hardware.Prelude.{true, false, List, [], ◌∷◌}
use ugreen_nas_hardware.Disk.Firmware.Types.{FirmwareRule, rule}

abbrev pub rows_26_0 : List FirmwareRule
rows_26_0 =
    rule "nvme1" "pcie_address" "pci0000:00/0000:00:06.0/0000:01:00.0" "m2" false
    ∷ rule "nvme2" "pcie_address" "pci0000:00/0000:00:06.2/0000:02:00.0" "m2" false
    ∷ rule "nvme3" "pcie_bridge_id" "8086:51b2" "m2" false
    ∷ rule "nvme4" "pcie_bridge_id" "8086:51b8" "m2" false
    ∷ []

abbrev pub rows_27_0 : List FirmwareRule
rows_27_0 =
    rule "ata1" "ata_id" "ata3" "sata" true
    ∷ rule "ata2" "ata_id" "ata4" "sata" true
    ∷ rule "ata3" "ata_id" "ata5" "sata" true
    ∷ rule "ata4" "ata_id" "ata6" "sata" true
    ∷ rule "ata5" "ata_id" "ata1" "sata" true
    ∷ rule "ata6" "ata_id" "ata2" "sata" true
    ∷ rule "nvme1" "pcie_bridge_id" "8086:7e4d" "m2" false
    ∷ rule "nvme2" "pcie_bridge_id" "8086:7eca" "m2" false
    ∷ rule "nvme3" "pcie_bridge_id" "8086:7ecc" "pcie" false
    ∷ []

abbrev pub rows_28_0 : List FirmwareRule
rows_28_0 =
    rule "ata1" "ata_id" "ata3" "sata" true
    ∷ rule "ata2" "ata_id" "ata4" "sata" true
    ∷ rule "ata3" "ata_id" "ata5" "sata" true
    ∷ rule "ata4" "ata_id" "ata6" "sata" true
    ∷ rule "ata5" "ata_id" "ata1" "sata" true
    ∷ rule "ata6" "ata_id" "ata2" "sata" true
    ∷ rule "nvme1" "pcie_bridge_id" "8086:7e4d" "m2" false
    ∷ rule "nvme2" "pcie_bridge_id" "8086:7eca" "m2" false
    ∷ rule "nvme3" "pcie_bridge_id" "8086:7ecc" "pcie" false
    ∷ []

abbrev pub rows_29_0 : List FirmwareRule
rows_29_0 =
    rule "ata1" "ata_id" "ata3" "sata" true
    ∷ rule "ata2" "ata_id" "ata4" "sata" true
    ∷ rule "ata3" "ata_id" "ata1" "sata" true
    ∷ rule "ata4" "ata_id" "ata2" "sata" true
    ∷ rule "ata5" "ata_id" "ata5" "sata" true
    ∷ rule "ata6" "ata_id" "ata6" "sata" true
    ∷ rule "nvme1" "pcie_bridge_id" "8086:7eca" "m2" false
    ∷ rule "nvme2" "pcie_bridge_id" "8086:7ecb" "m2" false
    ∷ rule "nvme3" "pcie_address" "pci0000:00/0000:00:01.0/0000:01:00.0" "pcie" false
    ∷ []

abbrev pub rows_30_0 : List FirmwareRule
rows_30_0 =
    rule "ata1" "ata_id" "ata3" "sata" true
    ∷ rule "ata2" "ata_id" "ata4" "sata" true
    ∷ rule "ata3" "ata_id" "ata1" "sata" true
    ∷ rule "ata4" "ata_id" "ata2" "sata" true
    ∷ rule "ata5" "ata_id" "ata5" "sata" true
    ∷ rule "ata6" "ata_id" "ata6" "sata" true
    ∷ rule "nvme1" "pcie_bridge_id" "8086:e361" "m2" false
    ∷ rule "nvme2" "pcie_bridge_id" "8086:e366" "m2" false
    ∷ rule "nvme3" "pcie_bridge_id" "8086:e365" "pcie" false
    ∷ []

abbrev pub rows_32_0 : List FirmwareRule
rows_32_0 = rule "ata1" "ata_id" "ata2" "sata" false ∷ rule "ata2" "ata_id" "ata1" "sata" false ∷ []

abbrev pub rows_32_1 : List FirmwareRule
rows_32_1 = rule "ata1" "ata_id" "ata2" "sata" false ∷ rule "ata2" "ata_id" "ata1" "sata" false ∷ []

abbrev pub rows_32_2 : List FirmwareRule
rows_32_2 = rule "ata1" "ata_id" "ata2" "sata" false ∷ rule "ata2" "ata_id" "ata1" "sata" false ∷ []

abbrev pub rows_33_0 : List FirmwareRule
rows_33_0 =
    rule "ata1" "ata_id" "ata2" "sata" false
    ∷ rule "ata2" "ata_id" "ata1" "sata" false
    ∷ rule "ata3" "ata_id" "ata4" "sata" false
    ∷ rule "ata4" "ata_id" "ata3" "sata" false
    ∷ []

abbrev pub rows_33_1 : List FirmwareRule
rows_33_1 =
    rule "ata1" "ata_id" "ata2" "sata" false
    ∷ rule "ata2" "ata_id" "ata1" "sata" false
    ∷ rule "ata3" "ata_id" "ata4" "sata" false
    ∷ rule "ata4" "ata_id" "ata3" "sata" false
    ∷ []
