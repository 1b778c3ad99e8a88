-- ===== src/Disk.antt =====
-- Disks and their bays, disk/disk.c and disk/firmware_profiles.c.
pub mod Types
pub mod Firmware
pub mod Resolve
pub mod Calibration
pub mod Rules
pub mod Namespaces
