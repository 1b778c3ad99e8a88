-- ===== src/Disk/Types.antt =====
-- The data of disk/disk.h. A character array holds its text up to the NUL; `reason`, a text for the
-- user, is left out. `disks` has `count` elements, `namespace_aliases` has `namespace_count`.
use ugreen_nas_hardware.Prelude.{ℕ, Bool, List, Bytes, Errno, eperm}

-- UGREENCTL_DISK_MAX
abbrev pub disk_max : ℕ
disk_max = 128

pub record Disk : Type 0 where
  pub name : Bytes
  pub device : Bytes
  pub serial : Bytes
  pub wwn : Bytes
  pub topology : Bytes
  pub pci : Bytes
  pub led_id : Bytes
  pub mapping_source : Bytes
  pub ata : ℕ
  pub ata_port : ℕ
  pub slot : ℕ
  pub mapped : Bool
  pub interface_type : Bytes
  pub slot_name : Bytes
  pub led_supported : Bool

pub record NamespaceAlias : Type 0 where
  pub name : Bytes
  pub wwn : Bytes
  pub disk_name : Bytes

pub record DiskScan : Type 0 where
  pub disks : List Disk
  pub profile_known : Bool
  pub profile : Bytes
  pub namespace_aliases : List NamespaceAlias

-- The -1 that `fail` returns, which is the number of -EPERM.
abbrev pub failed : Errno
failed = eperm
