-- ===== src/Examples/Snapshot.antt =====
-- The answers of drives.
use ugreen_nas_hardware.Prelude.{
  ℕ, suc, zero, ◌≡◌, ◌≢◌, refl, arith, true, [], ◌∷◌, some, none, Bytes, codes, ok, bytes_eq,
  if◌then◌else◌,
}
use ugreen_nas_hardware.Fan.Snapshot.Ata.{
  Drive, fault, sector_count, check_power_mode, ask_drive, ata_return_sector_count,
  parse_ata_smart_temperature, or_airflow, descriptors,
}
use ugreen_nas_hardware.Fan.Snapshot.Ata.Safe.{
  MaySend, ask_drive-MaySend, ata_return_sector_count-ne-fault,
}
use ugreen_nas_hardware.Fan.Snapshot.Ata.Smart.{
  attributes, values, first_or, last_or, parse_ata_smart_temperature_lem,
}

abbrev zeros : ℕ → Bytes
zeros zero = []
zeros (suc n) = 0 ∷ zeros n

-- Sense data with an information descriptor before the ATA one.
abbrev running_sense : Bytes
running_sense = 0x72 ∷ 0 ∷ 0 ∷ 0 ∷ 0 ∷ 0 ∷ 0 ∷ 16 ∷ 0 ∷ 0 ∷ 9 ∷ 12 ∷ 0 ∷ 0 ∷ 0 ∷ 255 ∷ zeros 8

ata_return_sector_count-ne-fault_example : ata_return_sector_count (some running_sense) ≢ fault
ata_return_sector_count-ne-fault_example = ata_return_sector_count-ne-fault (some running_sense)

found : ata_return_sector_count (some running_sense) ≡ sector_count 255
unfolding ata_return_sector_count descriptors
found = refl

-- Attribute 190 at 31 degrees, then 194 at 34.
abbrev smart_data : Bytes
smart_data =
    0 ∷ 0 ∷ 190 ∷ 0 ∷ 0 ∷ 0 ∷ 0 ∷ 31 ∷ 0 ∷ 0 ∷ 0 ∷ 0 ∷ 0 ∷ 0 ∷ 194 ∷ 0 ∷ 0 ∷ 0 ∷ 0 ∷ 34 ∷ zeros 492

parse_ata_smart_temperature_lem_example :
    parse_ata_smart_temperature (some smart_data)
    ≡ first_or
        (values 194 (attributes 30 0 smart_data))
        (or_airflow (last_or (values 190 (attributes 30 0 smart_data)) none))
parse_ata_smart_temperature_lem_example = parse_ata_smart_temperature_lem smart_data (omega arith)

abbrev running_drive : Drive
running_drive = record {
  name = codes "sda";
  vendor = ok (codes "ATA");
  rotational = ok (codes "1");
  opens = true;
  answers = λ command. record {
    ioctl = ok tt;
    host_status = 0;
    status = if bytes_eq command check_power_mode then 2 else 0;
    driver_status = 0;
    resid = 0;
    sense = running_sense;
    transferred = smart_data;
  };
}

ask_drive-MaySend_example : MaySend running_drive (ask_drive running_drive).commands
ask_drive-MaySend_example = ask_drive-MaySend running_drive
