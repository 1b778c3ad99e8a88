-- ===== src/Fan/Snapshot.antt =====
-- Reading the temperatures, fan/thermal_curve.c: `ugreenctl_read_thermal_snapshot` on the files under
-- /sys/class/hwmon. A path that is too long counts as a file that can not be read.
pub mod Ata
pub mod Laws
use ugreen_nas_hardware.Prelude.{
  ℕ, zero, suc, ◌+◌, ◌-◌, ◌/◌, Bool, true, false, not, ◌&&◌, ◌||◌, List, [], ◌∷◌, ◌++◌, Option,
  none, some, leb, ltb, ◌==◌, if◌then◌else◌, Bytes, codes, str_is, bytes_eq, Result, ok, err, ◌>>=◌,
  einval, erange, eio, ℤ, pos, negsuc, is_negative,
}
use ugreen_nas_hardware.Prelude.Scan.{
  is_digit, is_empty, until_nul, trim_end, skip_spaces, Converted, strtoll, first_piece, read_text,
}
use ugreen_nas_hardware.Fan.Curve.{ThermalSnapshot, thermal_max_celsius}
use Ata.{Drive, hotter_of, smart_hdd_celsius}

abbrev pub all_digits : Bytes → Bool
all_digits [] = true
all_digits (c ∷ cs) = is_digit c && all_digits cs

-- `strncmp(name, prefix, strlen(prefix)) == 0`: what follows the prefix.
abbrev pub after_prefix : Bytes → Bytes → Option Bytes
after_prefix [] name = some name
after_prefix (p ∷ ps) [] = none
after_prefix (p ∷ ps) (c ∷ cs) = let rest = after_prefix ps cs in if p == c then rest else none

abbrev pub is_number : Option Bytes → Bool
is_number none = false
is_number (some []) = false
is_number (some (c ∷ cs)) = all_digits (c ∷ cs)

unfoldable pub is_hwmon_directory : Bytes → Bool
is_hwmon_directory name = is_number (after_prefix (codes "hwmon") name)

-- The number in a text without white space at its end: degrees, or thousandths from 1001 on.
unfoldable pub celsius_of : Bytes → Result ℕ
unfolding skip_spaces strtoll
celsius_of text =
    let parsed = strtoll (skip_spaces text) in
    let celsius = if ltb 1000 parsed.magnitude then parsed.magnitude / 1000 else parsed.magnitude in
    if parsed.out_of_range
      || is_empty text
      || not parsed.converted
      || not (is_empty parsed.rest)
      || parsed.negative
      || ltb 200000 parsed.magnitude
    then err einval
    else if ltb thermal_max_celsius celsius
    then err erange
    else ok celsius

unfoldable pub read_temperature_celsius : Result Bytes → Result ℕ
unfolding read_text celsius_of
read_temperature_celsius file = read_text 64 file >>= celsius_of

unfoldable pub is_cpu_hwmon : Bytes → Bool
is_cpu_hwmon name =
    str_is name "coretemp"
    || str_is name "k8temp"
    || str_is name "k10temp"
    || str_is name "zenpower"

unfoldable pub is_hdd_hwmon : Bytes → Bool
is_hdd_hwmon name = str_is name "drivetemp"

unfoldable pub is_ssd_hwmon : Bytes → Bool
is_ssd_hwmon name = str_is name "nvme" || str_is name "nvme-pci"

-- The first of the files that can be read; `glob` gives them in its order, `none` if it fails.
unfoldable pub first_temperature : List (Result Bytes) → ℤ → ℤ
unfolding read_temperature_celsius
first_temperature [] kept = kept
first_temperature (file ∷ files) kept =
    let later = first_temperature files kept in
    elim (read_temperature_celsius file) [ ok t ↦ pos t | err e ↦ later ]

unfoldable pub collect_first_hwmon_temperature : Option (List (Result Bytes)) → ℤ → ℤ
unfolding first_temperature
collect_first_hwmon_temperature none kept = kept
collect_first_hwmon_temperature (some files) kept = first_temperature files kept

-- `strstr(name, "_input") != NULL`
unfoldable pub contains : Bytes → Bytes → Bool
contains word [] = is_empty word
contains word (c ∷ cs) =
    let later = contains word cs in
    elim (after_prefix word (c ∷ cs)) [ some _ ↦ true | none ↦ later ]

unfoldable pub is_temperature_input : Bytes → Bool
unfolding contains
is_temperature_input name = elim (after_prefix (codes "temp") name) [
  | some _ ↦ contains (codes "_input") name
  | none ↦ false
]

-- A file of a directory: its name, and what opening and reading it gives.
pub record InputFile : Type 0 where
  pub name : Bytes
  pub text : Result Bytes

-- `none` is a directory that can not be opened.
unfoldable pub collect_hottest : List InputFile → ℤ → ℤ
unfolding is_temperature_input read_temperature_celsius hotter_of
collect_hottest [] maximum = maximum
collect_hottest (f ∷ fs) maximum = collect_hottest fs (
    if is_temperature_input f.name
    then elim (read_temperature_celsius f.text) [ ok t ↦ hotter_of t maximum | err e ↦ maximum ]
    else maximum)

unfoldable pub collect_hottest_hwmon_temperature : Option (List InputFile) → ℤ → ℤ
unfolding collect_hottest
collect_hottest_hwmon_temperature none maximum = maximum
collect_hottest_hwmon_temperature (some fs) maximum = collect_hottest fs maximum

-- An entry of the root: its name, its file `name`, what `glob` finds in it and what it lists.
pub record HwmonEntry : Type 0 where
  pub d_name : Bytes
  pub name_text : Result Bytes
  pub globbed : Option (List (Result Bytes))
  pub listed : Option (List InputFile)

abbrev no_readings : ThermalSnapshot
no_readings = record {
  cpu_celsius = negsuc 0;
  hdd_celsius = negsuc 0;
  ssd_celsius = negsuc 0;
  cpu_peak_celsius = negsuc 0;
}

-- An entry whose file `name` says `name`.
unfoldable pub read_device : HwmonEntry → Bytes → ThermalSnapshot → ThermalSnapshot
unfolding is_cpu_hwmon is_hdd_hwmon is_ssd_hwmon collect_first_hwmon_temperature
    collect_hottest_hwmon_temperature
read_device entry name s =
    if is_cpu_hwmon name
    then record s {
      cpu_celsius =
          if is_negative s.cpu_celsius
          then collect_first_hwmon_temperature entry.globbed s.cpu_celsius
          else s.cpu_celsius;
      cpu_peak_celsius = collect_hottest_hwmon_temperature entry.listed s.cpu_peak_celsius;
    }
    else if is_hdd_hwmon name
    then record s { hdd_celsius = collect_hottest_hwmon_temperature entry.listed s.hdd_celsius }
    else if is_ssd_hwmon name
    then record s { ssd_celsius = collect_hottest_hwmon_temperature entry.listed s.ssd_celsius }
    else s

unfoldable pub read_entry : HwmonEntry → ThermalSnapshot → ThermalSnapshot
unfolding is_hwmon_directory read_device read_text
read_entry entry s =
    if is_hwmon_directory entry.d_name
    then elim (read_text 64 entry.name_text) [ ok name ↦ read_device entry name s | err e ↦ s ]
    else s

unfoldable pub read_entries : List HwmonEntry → ThermalSnapshot → ThermalSnapshot
unfolding read_entry
read_entries [] s = s
read_entries (entry ∷ entries) s = read_entries entries (read_entry entry s)

-- After the directory: without a reading from the kernel the drives are asked.
unfoldable pub with_smart : Option (List Drive) → ThermalSnapshot → ThermalSnapshot
with_smart drives s =
    if is_negative s.hdd_celsius
    then record s { hdd_celsius = smart_hdd_celsius drives s.hdd_celsius }
    else s

-- `root` has the entries of the directory or the errno of `opendir`.
unfoldable pub read_thermal_snapshot :
    Result (List HwmonEntry) → Option (List Drive) → Result (Unit {0}) × ThermalSnapshot
unfolding read_entries with_smart
read_thermal_snapshot (err e) drives = (err e, no_readings)
read_thermal_snapshot (ok entries) drives =
    (ok tt, with_smart drives (read_entries entries no_readings))
