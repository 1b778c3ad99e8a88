-- ===== src/Disk/Resolve.antt =====
-- Choosing a disk, disk/disk.c: `parse_number`, `selector_slot` and `ugreenctl_disk_resolve`.
pub mod Laws
use ugreen_nas_hardware.Prelude.{
  ℕ, zero, suc, ◌+◌, Bool, true, false, not, ◌&&◌, ◌||◌, List, [], ◌∷◌, Option, none, some, ltb,
  ◌==◌, if◌then◌else◌, length, Bytes, bytes_eq, str_is, codes, Result, ok, err, enotsup,
}
use ugreen_nas_hardware.Prelude.Scan.{starts_digit, is_empty, strtoul}
use ugreen_nas_hardware.Fan.Snapshot.{after_prefix}
use ugreen_nas_hardware.Disk.Types.{Disk, NamespaceAlias, DiskScan, disk_max, failed}

-- A decimal number that fits in an `unsigned int`; `none` for -1.
unfoldable pub parse_number : Bytes → Option ℕ
unfolding strtoul
parse_number value =
    let n = strtoul value in
    if not (starts_digit value) || n.out_of_range || not (is_empty n.rest) || ltb 0xffffffff n.value
    then none
    else some n.value

-- A number from 1 to 8, or 0.
abbrev bay_of : Option ℕ → ℕ
bay_of none = 0
bay_of (some n) = if (n == 0) || ltb 8 n then 0 else n

abbrev slot_of : Option Bytes → ℕ
unfolding parse_number
slot_of none = 0
slot_of (some digits) = bay_of (parse_number digits)

-- `slotN` or `diskN`; 0 for any other selector.
unfoldable pub selector_slot : Bytes → ℕ
unfolding parse_number
selector_slot selector = elim (after_prefix (codes "slot") selector) [
  | some digits ↦ slot_of (some digits)
  | none ↦ slot_of (after_prefix (codes "disk") selector)
]

abbrev same_rest : Option Bytes → Bytes → Bool
same_rest none text = false
same_rest (some rest) text = bytes_eq rest text

abbrev pub is_prefixed : Option Bytes → Bool
is_prefixed none = false
is_prefixed (some rest) = true

-- What a selector says of a disk without its namespaces; `slot` is that of the selector.
unfoldable pub names_disk : Bytes → ℕ → Disk → Bool
unfolding bytes_eq str_is
names_disk selector slot disk =
    if not (slot == 0)
    then disk.mapped && (disk.slot == slot) && not (str_is disk.interface_type "nvme")
    else if is_prefixed (after_prefix (codes "nvme") selector)
        && not (is_empty disk.slot_name)
        && bytes_eq selector disk.slot_name
    then true
    else if is_prefixed (after_prefix (codes "serial:") selector)
    then not (is_empty disk.serial)
      && same_rest (after_prefix (codes "serial:") selector) disk.serial
    else if is_prefixed (after_prefix (codes "wwn:") selector)
    then not (is_empty disk.wwn) && same_rest (after_prefix (codes "wwn:") selector) disk.wwn
    else bytes_eq selector disk.name
      || bytes_eq selector disk.device
      || (not (is_empty disk.serial) && bytes_eq selector disk.serial)

-- One of the namespaces of the disk is meant.
unfoldable pub names_alias : Bytes → Bytes → List NamespaceAlias → Bool
unfolding bytes_eq
names_alias selector disk_name [] = false
names_alias selector disk_name (alias ∷ aliases) =
    let later = names_alias selector disk_name aliases in
    if bytes_eq alias.disk_name disk_name
      && ((not (is_empty alias.wwn) && same_rest (after_prefix (codes "wwn:") selector) alias.wwn)
          || bytes_eq selector alias.name
          || same_rest (after_prefix (codes "/dev/") selector) alias.name)
    then true
    else later

unfoldable pub is_match : DiskScan → Bytes → ℕ → Disk → Bool
unfolding names_disk names_alias
is_match scan selector slot disk =
    names_disk selector slot disk
    || ((slot == 0) && names_alias selector disk.name scan.namespace_aliases)

-- The last match, and how many there are.
unfoldable pub find_matches : DiskScan → Bytes → ℕ → List Disk → Option Disk → ℕ → Option Disk × ℕ
unfolding is_match
find_matches scan selector slot [] found matches = (found, matches)
find_matches scan selector slot (disk ∷ disks) found matches =
    let with_it = find_matches scan selector slot disks (some disk) (suc matches) in
    let without = find_matches scan selector slot disks found matches in
    if is_match scan selector slot disk then with_it else without

-- After the loop.
abbrev pub one_match : Option Disk × ℕ → Result Disk
one_match (none, matches) = err failed
one_match (some found, matches) =
    if not (matches == 1)
    then err failed
    else if not found.mapped
    then err failed
    else if not found.led_supported || is_empty found.led_id
    then err enotsup
    else ok found

-- `none` for NULL; `out` is not NULL. The disk is what `*out` points to.
unfoldable pub disk_resolve : Option DiskScan → Option Bytes → Result Disk
unfolding selector_slot find_matches
disk_resolve (some scan) (some selector) =
    if is_empty selector
      || ltb disk_max (length scan.disks)
      || ltb disk_max (length scan.namespace_aliases)
    then err failed
    else one_match (find_matches scan selector (selector_slot selector) scan.disks none 0)
disk_resolve _ _ = err failed
