-- ===== src/Disk/Namespaces.antt =====
-- The namespaces of an NVMe controller, disk/disk.c: `coalesce_nvme_namespaces`.
pub mod Groups
pub mod Joined
pub mod Laws
use ugreen_nas_hardware.Prelude.{
  ℕ, zero, suc, Bool, true, false, not, ◌&&◌, ◌||◌, List, [], ◌∷◌, ◌++◌, Option, none, some, ◌==◌,
  if◌then◌else◌, length, map, get_elem?, Bytes, bytes_eq, Result, ok, err, ◌>>=◌,
}
use ugreen_nas_hardware.Prelude.Scan.{is_empty}
use ugreen_nas_hardware.Network.Pci.{before_text}
use ugreen_nas_hardware.Disk.Types.{Disk, NamespaceAlias, DiskScan, failed}

-- The disk that stands for a controller, with the path of the controller, which may be empty.
pub record DiskGroup : Type 0 where
  pub representative : Disk
  pub controller : Bytes

-- A namespace whose controller is known, and the place of its group.
pub record GroupedName : Type 0 where
  pub name : Bytes
  pub wwn : Bytes
  pub group : ℕ

pub record Coalesced : Type 0 where
  pub groups : List DiskGroup
  pub named : List GroupedName

abbrev pub later_group : Option (ℕ × Disk) → Option (ℕ × Disk)
later_group none = none
later_group (some (i, disk)) = some (suc i, disk)

-- The first group of this controller.
unfoldable pub find_group : Bytes → List DiskGroup → Option (ℕ × Disk)
unfolding bytes_eq
find_group controller [] = none
find_group controller (group ∷ groups) =
    let later = later_group (find_group controller groups) in
    if not (is_empty controller)
      && not (is_empty group.controller)
      && bytes_eq controller group.controller
    then some (0, group.representative)
    else later

abbrev pub same_flag : Bool → Bool → Bool
same_flag true b = b
same_flag false b = not b

-- The identity and the bay did not change across the namespaces.
unfoldable pub same_physical : Disk → Disk → Bool
unfolding bytes_eq
same_physical physical disk =
    bytes_eq physical.pci disk.pci
    && bytes_eq physical.serial disk.serial
    && bytes_eq physical.interface_type disk.interface_type
    && same_flag physical.mapped disk.mapped
    && (physical.slot == disk.slot)
    && same_flag physical.led_supported disk.led_supported
    && bytes_eq physical.slot_name disk.slot_name
    && bytes_eq physical.led_id disk.led_id

abbrev pub replace_at : ℕ → Disk → List DiskGroup → List DiskGroup
replace_at i disk [] = []
replace_at zero disk (group ∷ groups) = record group { representative = disk } ∷ groups
replace_at (suc i) disk (group ∷ groups) = group ∷ replace_at i disk groups

-- An alias for a namespace whose controller is known.
unfoldable pub add_name : Disk → Bytes → ℕ → List GroupedName → List GroupedName
add_name disk controller group named =
    if is_empty controller
    then named
    else named ++ record { name = disk.name; wwn = disk.wwn; group = group } ∷ []

-- With the group that was found. The name that comes first stands for the controller.
unfoldable pub join_group : Disk → Bytes → Coalesced → Option (ℕ × Disk) → Result Coalesced
unfolding same_physical add_name before_text
join_group disk controller state none = ok (record {
  groups = state.groups ++ record { representative = disk; controller = controller } ∷ [];
  named = add_name disk controller (length state.groups) state.named;
})
join_group disk controller state (some (group, physical)) =
    if not (same_physical physical disk)
    then err failed
    else ok (record {
      groups =
          if before_text disk.name physical.name
          then replace_at group disk state.groups
          else state.groups;
      named = add_name disk controller group state.named;
    })

unfoldable pub coalesce_disks : List (Disk × Bytes) → Coalesced → Result Coalesced
unfolding join_group find_group
coalesce_disks [] state = ok state
coalesce_disks ((disk, controller) ∷ rest) state =
    join_group disk controller state (find_group controller state.groups) >>= λ state'.
    coalesce_disks rest state'

abbrev pub name_at : List DiskGroup → ℕ → Bytes
name_at [] i = []
name_at (group ∷ groups) zero = group.representative.name
name_at (group ∷ groups) (suc i) = name_at groups i

-- The aliases get the names of their disks at the end.
unfoldable pub aliases_of : List DiskGroup → List GroupedName → List NamespaceAlias
aliases_of groups [] = []
aliases_of groups (named ∷ rest) =
    record { name = named.name; wwn = named.wwn; disk_name = name_at groups named.group }
    ∷ aliases_of groups rest

unfoldable pub disks_of : List DiskGroup → List Disk
disks_of [] = []
disks_of (group ∷ groups) = group.representative ∷ disks_of groups

-- The disks with the paths of their controllers.
unfoldable pub coalesce_nvme_namespaces : List (Disk × Bytes) → DiskScan → Result DiskScan
unfolding coalesce_disks aliases_of disks_of
coalesce_nvme_namespaces disks scan =
    coalesce_disks disks (record { groups = []; named = [] }) >>= λ state. ok (record scan {
      disks = disks_of state.groups;
      namespace_aliases = aliases_of state.groups state.named;
    })
