-- ===== src/Fan/Snapshot/Laws.antt =====
-- The readings are plausible, and the hottest sensor counts.
use ugreen_nas_hardware.Prelude.{
  ℕ, ◌≤◌, ◌≡◌, inl, inr, refl, arith, Bool, true, false, not, ◌||◌, List, [], ◌∷◌, Option, none,
  some, Bool-cases, if◌then◌else◌, Bytes, Result, ok, err, ◌>>=◌, ℤ, pos, negsuc, is_negative,
}
use ugreen_nas_hardware.Prelude.Scan.{read_text}
use ugreen_nas_hardware.Fan.Curve.{ThermalSnapshot, thermal_max_celsius}
use ugreen_nas_hardware.Fan.Curve.Parts.{Fits, IsReading}
use ugreen_nas_hardware.Fan.Snapshot.Ata.{
  Drive, hotter_of, ask_drive, ask_running, ata_check_power_mode, ata_read_smart_data,
  parse_ata_smart_temperature, hottest_drive, smart_hdd_celsius, read_smart_data, check_power_mode,
  is_sata_rotational_block_device,
}
use ugreen_nas_hardware.Fan.Snapshot.Ata.Smart.{parse_ata_smart_temperature_range}
use ugreen_nas_hardware.Fan.Snapshot.{
  celsius_of, read_temperature_celsius, first_temperature, collect_first_hwmon_temperature,
  is_temperature_input, InputFile, collect_hottest, collect_hottest_hwmon_temperature, HwmonEntry,
  read_device, read_entry, read_entries, with_smart, read_thermal_snapshot, is_hwmon_directory,
}

-- -1 for no reading, or 0 to 125 degrees.
abbrev pub IsPlausible : ℤ → Type 0
IsPlausible (pos t) = t ≤ thermal_max_celsius
IsPlausible (negsuc n) = n ≡ 0

pub record ArePlausible (s : ThermalSnapshot) : Type 0 where
  pub cpu : IsPlausible s.cpu_celsius
  pub hdd : IsPlausible s.hdd_celsius
  pub ssd : IsPlausible s.ssd_celsius
  pub peak : IsPlausible s.cpu_peak_celsius

-- What a result gives, if it is one.
abbrev Within : Result ℕ → Type 0
Within (ok t) = t ≤ thermal_max_celsius
Within (err e) = Unit

celsius_of-Within : (text : Bytes) → Within (celsius_of text)
unfolding celsius_of
celsius_of-Within text = ground arith

bind-Within :
    (r : Result Bytes) (f : Bytes → Result ℕ) → ((b : Bytes) → Within (f b)) → Within (r >>= f)
bind-Within (ok b) f h = h b
bind-Within (err e) f h = tt

read_temperature_celsius-Within : (file : Result Bytes) → Within (read_temperature_celsius file)
unfolding read_temperature_celsius
read_temperature_celsius-Within file = bind-Within (read_text 64 file) celsius_of celsius_of-Within

-- A reading that succeeds counts, and else what there was.
reading-IsPlausible :
    (r : Result ℕ) (f : ℕ → ℤ) (other : ℤ)
    → Within r
    → ((t : ℕ) → t ≤ thermal_max_celsius → IsPlausible (f t))
    → IsPlausible other
    → IsPlausible (elim r [ ok t ↦ f t | err e ↦ other ])
reading-IsPlausible (ok t) f other w h k = h t w
reading-IsPlausible (err e) f other w h k = k

if-IsPlausible :
    (test : Bool) (a b : ℤ) → IsPlausible a → IsPlausible b → IsPlausible (if test then a else b)
if-IsPlausible true a b h k = h
if-IsPlausible false a b h k = k

first_temperature-IsPlausible :
    (files : List (Result Bytes)) (kept : ℤ)
    → IsPlausible kept
    → IsPlausible (first_temperature files kept)
unfolding first_temperature
first_temperature-IsPlausible [] kept h = h
first_temperature-IsPlausible (f ∷ fs) kept h =
    reading-IsPlausible (read_temperature_celsius f) pos (first_temperature fs kept)
      (read_temperature_celsius-Within f) (λ t w. w) (first_temperature-IsPlausible fs kept h)

hotter_of-IsPlausible :
    (m : ℤ) → IsPlausible m → (t : ℕ) → t ≤ thermal_max_celsius → IsPlausible (hotter_of t m)
unfolding hotter_of
hotter_of-IsPlausible (pos m) k t h = ground arith
hotter_of-IsPlausible (negsuc n) k t h = h

collect_hottest-IsPlausible :
    (fs : List InputFile) (m : ℤ) → IsPlausible m → IsPlausible (collect_hottest fs m)
unfolding collect_hottest
collect_hottest-IsPlausible [] m h = h
collect_hottest-IsPlausible (f ∷ fs) m h = collect_hottest-IsPlausible fs _ (
    if-IsPlausible (is_temperature_input f.name) _ m
      (reading-IsPlausible (read_temperature_celsius f.text) (λ t. hotter_of t m) m
        (read_temperature_celsius-Within f.text) (hotter_of-IsPlausible m h) h)
      h)

hottest_listed-IsPlausible :
    (listed : Option (List InputFile)) (m : ℤ)
    → IsPlausible m
    → IsPlausible (collect_hottest_hwmon_temperature listed m)
unfolding collect_hottest_hwmon_temperature
hottest_listed-IsPlausible none m h = h
hottest_listed-IsPlausible (some fs) m h = collect_hottest-IsPlausible fs m h

first_globbed-IsPlausible :
    (globbed : Option (List (Result Bytes))) (m : ℤ)
    → IsPlausible m
    → IsPlausible (collect_first_hwmon_temperature globbed m)
unfolding collect_first_hwmon_temperature
first_globbed-IsPlausible none m h = h
first_globbed-IsPlausible (some fs) m h = first_temperature-IsPlausible fs m h

read_device-ArePlausible :
    (entry : HwmonEntry) (name : Bytes) (s : ThermalSnapshot)
    → ArePlausible s
    → ArePlausible (read_device entry name s)
unfolding read_device
read_device-ArePlausible entry name s h = ground (
  arith,
  if-IsPlausible (is_negative s.cpu_celsius) _ s.cpu_celsius
      (first_globbed-IsPlausible entry.globbed s.cpu_celsius h.cpu) h.cpu,
  hottest_listed-IsPlausible entry.listed s.cpu_peak_celsius h.peak,
  hottest_listed-IsPlausible entry.listed s.hdd_celsius h.hdd,
  hottest_listed-IsPlausible entry.listed s.ssd_celsius h.ssd,
)

read_entry-ArePlausible :
    (entry : HwmonEntry) (s : ThermalSnapshot) → ArePlausible s → ArePlausible (read_entry entry s)
unfolding read_entry
read_entry-ArePlausible entry s h = elim (Bool-cases (is_hwmon_directory entry.d_name)) [
  | inl there ↦ rw there (by_name (read_text 64 entry.name_text))
  | inr other ↦ rw other h
]
  where
    by_name :
        (r : Result Bytes)
        → ArePlausible (elim r [ ok name ↦ read_device entry name s | err e ↦ s ])
    by_name (ok name) = read_device-ArePlausible entry name s h
    by_name (err e) = h

read_entries-ArePlausible :
    (entries : List HwmonEntry) (s : ThermalSnapshot)
    → ArePlausible s
    → ArePlausible (read_entries entries s)
unfolding read_entries
read_entries-ArePlausible [] s h = h
read_entries-ArePlausible (entry ∷ entries) s h =
    read_entries-ArePlausible entries (read_entry entry s) (read_entry-ArePlausible entry s h)

answered-Within :
    (r : Result Bytes) → Within (r >>= λ bytes. parse_ata_smart_temperature (some bytes))
answered-Within r = bind-Within r _ parsed-Within
  where
    by_parse : (r : Result ℕ) → ((t : ℕ) → r ≡ ok t → t ≤ thermal_max_celsius) → Within r
    by_parse (ok t) h = h t refl
    by_parse (err e) h = tt

    parsed-Within : (bytes : Bytes) → Within (parse_ata_smart_temperature (some bytes))
    parsed-Within bytes =
        by_parse (parse_ata_smart_temperature (some bytes))
          (parse_ata_smart_temperature_range bytes)

ask_running-Within : (d : Drive) (r : Result Bool) → Within (ask_running d r).temperature
unfolding ask_running
ask_running-Within d (ok true) = answered-Within (ata_read_smart_data (d.answers read_smart_data))
ask_running-Within d (ok false) = tt
ask_running-Within d (err e) = tt

ask_drive-Within : (d : Drive) → Within (ask_drive d).temperature
unfolding ask_drive
ask_drive-Within d = elim (Bool-cases (not (is_sata_rotational_block_device d) || not d.opens)) [
  | inl no_drive ↦ rw no_drive tt
  | inr drive ↦ rw drive (ask_running-Within d (ata_check_power_mode (d.answers check_power_mode)))
]

hottest_drive-IsPlausible :
    (ds : List Drive) (m : ℤ) → IsPlausible m → IsPlausible (hottest_drive ds m)
unfolding hottest_drive
hottest_drive-IsPlausible [] m h = h
hottest_drive-IsPlausible (d ∷ ds) m h = hottest_drive-IsPlausible ds _ (
    reading-IsPlausible (ask_drive d).temperature (λ t. hotter_of t m) m (ask_drive-Within d)
      (hotter_of-IsPlausible m h) h)

smart_hdd_celsius-IsPlausible :
    (drives : Option (List Drive)) (m : ℤ)
    → IsPlausible m
    → IsPlausible (smart_hdd_celsius drives m)
unfolding smart_hdd_celsius
smart_hdd_celsius-IsPlausible none m h = h
smart_hdd_celsius-IsPlausible (some ds) m h = hottest_drive-IsPlausible ds m h

with_smart-ArePlausible :
    (drives : Option (List Drive)) (s : ThermalSnapshot)
    → ArePlausible s
    → ArePlausible (with_smart drives s)
unfolding with_smart
with_smart-ArePlausible drives s h =
    ground (arith, smart_hdd_celsius-IsPlausible drives s.hdd_celsius h.hdd)

-- Whatever the sensor files hold and the drives answer, each reading of a snapshot is -1, for none,
-- or a temperature of 0 to 125 degrees.
pub read_thermal_snapshot-ArePlausible :
    (root : Result (List HwmonEntry)) (drives : Option (List Drive))
    → ArePlausible (read_thermal_snapshot root drives).1
unfolding read_thermal_snapshot
read_thermal_snapshot-ArePlausible (err e) drives = record {
  cpu = refl;
  hdd = refl;
  ssd = refl;
  peak = refl;
}
read_thermal_snapshot-ArePlausible (ok entries) drives = with_smart-ArePlausible drives _ (
    read_entries-ArePlausible entries _
      (record { cpu = refl; hdd = refl; ssd = refl; peak = refl }))

pub ArePlausible-IsReading : (s : ThermalSnapshot) → ArePlausible s → IsReading s
ArePlausible-IsReading s h = record {
  cpu = fits s.cpu_celsius h.cpu;
  hdd = fits s.hdd_celsius h.hdd;
  ssd = fits s.ssd_celsius h.ssd;
  peak = fits s.cpu_peak_celsius h.peak;
}
  where
    fits : (m : ℤ) → IsPlausible m → Fits m
    fits (pos t) h = omega arith
    fits (negsuc n) h = omega arith
