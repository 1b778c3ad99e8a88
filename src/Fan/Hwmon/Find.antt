-- ===== src/Fan/Hwmon/Find.antt =====
-- The device among the hwmon directories, fan/it8613_hwmon.c.
use ugreen_nas_hardware.Prelude.{
  Bool, false, not, List, [], ◌∷◌, ◌++◌, Option, none, some, leb, if◌then◌else◌, length, take,
  Bytes, codes, str_is, Result, ok, err, path_max, enametoolong, eexist, enodev,
}
use ugreen_nas_hardware.Prelude.Scan.{until_nul, trim_end}
use ugreen_nas_hardware.Fan.Snapshot.{after_prefix, is_number}

unfoldable pub build_path : Bytes → Bytes → Result Bytes
build_path directory name =
    let path = directory ++ b'/' ∷ name in
    if leb path_max (length path) then err enametoolong else ok path

unfoldable pub is_hwmon_directory_name : Bytes → Bool
is_hwmon_directory_name name = is_number (after_prefix (codes "hwmon") name)

-- A directory entry and what opening and reading its file `name` gives.
pub record NamedEntry : Type 0 where
  pub d_name : Bytes
  pub name_text : Result Bytes

abbrev pub says_it8613 : Result Bytes → Bool
says_it8613 (err e) = false
says_it8613 (ok bytes) = str_is (until_nul (trim_end (take 63 bytes))) "it8613"

abbrev pub both_paths : Result Bytes → Result Bytes → Result Bytes
both_paths (err e) name_path = err e
both_paths (ok candidate) (err e) = err enametoolong
both_paths (ok candidate) (ok name_path) = ok candidate

-- The path of an entry, if it and that of its file `name` are not too long.
unfoldable pub candidate_path : Bytes → Bytes → Result Bytes
unfolding build_path
candidate_path root d_name = elim (build_path root d_name) [
  | err e ↦ err e
  | ok candidate ↦ both_paths (ok candidate) (build_path candidate (codes "name"))
]

abbrev pub found_or_none : Option Bytes → Result Bytes
found_or_none none = err enodev
found_or_none (some path) = ok path

-- A second device is refused.
abbrev pub keep_found : Option Bytes → Bytes → Result (Option Bytes)
keep_found none candidate = ok (some candidate)
keep_found (some path) candidate = err eexist

-- What one entry makes of what was found before it.
unfoldable pub look_at : Bytes → NamedEntry → Option Bytes → Result (Option Bytes)
unfolding is_hwmon_directory_name candidate_path
look_at root entry found =
    if not (is_hwmon_directory_name entry.d_name)
    then ok found
    else elim (candidate_path root entry.d_name) [
      | err e ↦ err e
      | ok candidate ↦ if says_it8613 entry.name_text then keep_found found candidate else ok found
    ]

unfoldable pub find_among : Bytes → List NamedEntry → Option Bytes → Result Bytes
unfolding look_at
find_among root [] found = found_or_none found
find_among root (entry ∷ entries) found = elim (look_at root entry found) [
  | err e ↦ err e
  | ok found' ↦ find_among root entries found'
]

unfoldable pub find_it8613_hwmon : Bytes → Result (List NamedEntry) → Result Bytes
unfolding find_among
find_it8613_hwmon root (err e) = err e
find_it8613_hwmon root (ok entries) = find_among root entries none
