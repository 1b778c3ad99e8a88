-- ===== src/Fan/Snapshot/Ata/Smart.antt =====
-- Which attribute gives the temperature.
use ugreen_nas_hardware.Prelude.{
  ℕ, zero, suc, ◌+◌, ◌≤◌, ◌≡◌, refl, arith, false, not, ◌&&◌, ◌||◌, ◌==◌, ltb, if◌then◌else◌,
  Bool-cases, inl, inr, List, [], ◌∷◌, Option, none, some, get_or, length, Bytes, Result, ok,
}
use ugreen_nas_hardware.Fan.Curve.{thermal_max_celsius}
use ugreen_nas_hardware.Fan.Snapshot.Ata.{
  smart_offset, smart_scan, parse_ata_smart_temperature, or_airflow, smart_size,
}

-- An attribute of the table: its number and its first raw byte.
pub record Attribute : Type 0 where
  pub number : ℕ
  pub raw : ℕ

abbrev pub attribute_at : ℕ → Bytes → Attribute
attribute_at index bytes = record {
  number = get_or bytes (smart_offset index) 0;
  raw = get_or bytes (smart_offset index + 5) 0;
}

abbrev pub attributes : ℕ → ℕ → Bytes → List Attribute
attributes zero index bytes = []
attributes (suc left) index bytes = attribute_at index bytes ∷ attributes left (index + 1) bytes

-- The plausible values, 1 to 125, of the attributes with a number.
abbrev pub values : ℕ → List Attribute → List ℕ
values number [] = []
values number (a ∷ attrs) =
    if a.number == number && not (a.raw == 0) && not (ltb thermal_max_celsius a.raw)
    then a.raw ∷ values number attrs
    else values number attrs

abbrev pub first_or : List ℕ → Result ℕ → Result ℕ
first_or [] other = other
first_or (v ∷ vs) other = ok v

abbrev pub last_or : List ℕ → Option ℕ → Option ℕ
last_or [] other = other
last_or (v ∷ vs) other = last_or vs (some v)

smart_scan_lem :
    (left index : ℕ) (bytes : Bytes) (airflow : Option ℕ)
    → smart_scan left index bytes airflow
      ≡ first_or
          (values 194 (attributes left index bytes))
          (or_airflow (last_or (values 190 (attributes left index bytes)) airflow))
unfolding smart_scan
smart_scan_lem zero index bytes airflow = refl
smart_scan_lem (suc left) index bytes airflow = ground (
  arith,
  smart_scan_lem left (index + 1) bytes airflow,
  smart_scan_lem left (index + 1) bytes (some (get_or bytes (smart_offset index + 5) 0)),
)

-- From 512 bytes or more the temperature is the first plausible value of attribute 194 among the 30
-- attributes, else the last plausible one of attribute 190, and without either there is none.
pub parse_ata_smart_temperature_lem :
    (bytes : Bytes)
    → smart_size ≤ length bytes
    → parse_ata_smart_temperature (some bytes)
      ≡ first_or
          (values 194 (attributes 30 0 bytes))
          (or_airflow (last_or (values 190 (attributes 30 0 bytes)) none))
unfolding parse_ata_smart_temperature
parse_ata_smart_temperature_lem bytes h = rw (long bytes h) (smart_scan_lem 30 0 bytes none)
  where
    long : (bytes : Bytes) → smart_size ≤ length bytes → ltb (length bytes) smart_size ≡ false
    long bytes h = ground arith

abbrev IsPlausible : Option ℕ → Type 0
IsPlausible none = Unit
IsPlausible (some t) = t ≤ thermal_max_celsius

smart_scan_range :
    (left index : ℕ) (bytes : Bytes) (airflow : Option ℕ) (t : ℕ)
    → IsPlausible airflow
    → smart_scan left index bytes airflow ≡ ok t
    → t ≤ thermal_max_celsius
unfolding smart_scan
smart_scan_range zero index bytes none t h e = cc
smart_scan_range zero index bytes (some a) t h e = ground arith
smart_scan_range (suc left) index bytes airflow t h e =
    let raw = get_or bytes (smart_offset index + 5) 0 in
    elim (Bool-cases (raw == 0 || ltb thermal_max_celsius raw)) [
      | inl bad ↦ smart_scan_range left (index + 1) bytes airflow t h (ground (arith, bad))
      | inr good ↦ ground (
        arith,
        good,
        smart_scan_range left (index + 1) bytes airflow t h,
        smart_scan_range left (index + 1) bytes (some raw) t (ground arith),
      )
    ]

pub parse_ata_smart_temperature_range :
    (bytes : Bytes) (t : ℕ)
    → parse_ata_smart_temperature (some bytes) ≡ ok t
    → t ≤ thermal_max_celsius
unfolding parse_ata_smart_temperature
parse_ata_smart_temperature_range bytes t e = ground (arith, smart_scan_range 30 0 bytes none t tt)
