-- ===== src/Fan/Snapshot/Ata.antt =====
-- Temperatures from the drives themselves, fan/thermal_curve.c: the SMART data, the power mode and
-- `collect_smart_hdd_temperatures`.
pub mod Safe
pub mod Smart
use ugreen_nas_hardware.Prelude.{
  ℕ, zero, suc, ◌+◌, ◌-◌, ◌*◌, ◌%◌, ◌^◌, Bool, true, false, not, ◌&&◌, ◌||◌, List, [], ◌∷◌, ◌++◌,
  Option, none, some, leb, ltb, ◌==◌, if◌then◌else◌, get_or, get_elem?, length, Bytes, String,
  str_is, Result, ok, err, ◌>>=◌, einval, eio, enodata, ℤ, pos, negsuc,
}
use ugreen_nas_hardware.Prelude.Scan.{read_text}
use ugreen_nas_hardware.Fan.Curve.{thermal_max_celsius}

abbrev pub smart_size : ℕ
smart_size = 512

abbrev pub smart_offset : ℕ → ℕ
smart_offset index = 2 + index * 12

-- What is answered at the end of the table.
abbrev pub or_airflow : Option ℕ → Result ℕ
or_airflow none = err enodata
or_airflow (some t) = ok t

-- The attributes from `index` on, `left` of them; `airflow` is the last value of attribute 190.
unfoldable pub smart_scan : ℕ → ℕ → Bytes → Option ℕ → Result ℕ
smart_scan zero index bytes airflow = or_airflow airflow
smart_scan (suc left) index bytes airflow =
    let attribute = get_or bytes (smart_offset index) 0 in
    let value = get_or bytes (smart_offset index + 5) 0 in
    let valid = not (value == 0 || ltb thermal_max_celsius value) in
    let next =
      smart_scan left (index + 1) bytes
        (if valid && attribute == 190 then some value else airflow) in
    if valid && attribute == 194 then ok value else next

-- `none` for NULL.
unfoldable pub parse_ata_smart_temperature : Option Bytes → Result ℕ
unfolding smart_scan
parse_ata_smart_temperature none = err einval
parse_ata_smart_temperature (some bytes) =
    if ltb (length bytes) smart_size then err einval else smart_scan 30 0 bytes none

-- `fault` is a read outside of the sense data, or a loop that does not end.
pub data Sense : Type 0 where
  fault : Sense
  absent : Sense
  sector_count : ℕ → Sense

-- A read at `offset`, or a fault.
abbrev pub at_byte : Bytes → ℕ → (ℕ → Sense) → Sense
at_byte sense offset next = elim (get_elem? sense offset) [ none ↦ fault | some byte ↦ next byte ]

-- The descriptors from `offset` on.
unfoldable pub descriptors : ℕ → Bytes → ℕ → Sense
descriptors zero sense offset = fault
descriptors (suc fuel) sense offset =
    if not (ltb (offset + 1) (length sense))
    then absent
    else at_byte sense (offset + 1) (λ size.
      if ltb (length sense - offset) (size + 2)
      then absent
      else at_byte sense offset (λ kind.
        if kind == 9 && leb 14 (size + 2)
        then at_byte sense (offset + 5) (λ count. sector_count count)
        else descriptors fuel sense (offset + (size + 2))))

-- `none` for NULL; a pass takes two bytes at least, so the length is fuel enough.
unfoldable pub ata_return_sector_count : Option Bytes → Sense
unfolding descriptors
ata_return_sector_count none = absent
ata_return_sector_count (some sense) =
    if ltb (length sense) 8
    then absent
    else at_byte sense 0 (λ first.
      if not (first % 2 ^ 7 == 0x72) then absent else descriptors (length sense) sense 8)

-- The answer to an SG_IO request; `sense` has `sb_len_wr` bytes.
pub record Answer : Type 0 where
  pub ioctl : Result (Unit {0})
  pub host_status : ℕ
  pub status : ℕ
  pub driver_status : ℕ
  pub resid : ℕ
  pub sense : Bytes
  pub transferred : Bytes

-- The bytes of the two commands.
abbrev pub check_power_mode : Bytes
check_power_mode = 0x85 ∷ 0x06 ∷ 0x20 ∷ 0 ∷ 0 ∷ 0 ∷ 0 ∷ 0 ∷ 0 ∷ 0 ∷ 0 ∷ 0 ∷ 0 ∷ 0 ∷ 0xe5 ∷ 0 ∷ []

abbrev pub read_smart_data : Bytes
read_smart_data =
    0x85 ∷ 0x08 ∷ 0x0e ∷ 0 ∷ 0xd0 ∷ 0 ∷ 1 ∷ 0 ∷ 0 ∷ 0 ∷ 0x4f ∷ 0 ∷ 0xc2 ∷ 0 ∷ 0xb0 ∷ 0 ∷ []

abbrev pub running_of : Sense → Result Bool
running_of (sector_count n) = ok (not (n == 0))
running_of absent = err eio
running_of fault = err eio

-- Whether the drive runs, from its answer.
unfoldable pub ata_check_power_mode : Answer → Result Bool
unfolding ata_return_sector_count
ata_check_power_mode a = a.ioctl >>= λ _.
    if not (a.host_status == 0) || not (a.status == 2)
    then err eio
    else running_of (ata_return_sector_count (some a.sense))

-- The 512 bytes of data, from the answer.
unfoldable pub ata_read_smart_data : Answer → Result Bytes
ata_read_smart_data a = a.ioctl >>= λ _.
    if not (a.status == 0)
      || not (a.host_status == 0)
      || not (a.driver_status == 0)
      || not (a.resid == 0)
    then err eio
    else ok a.transferred

-- An entry of the block devices: its files, whether it opens, and how it answers a command.
pub record Drive : Type 0 where
  pub name : Bytes
  pub vendor : Result Bytes
  pub rotational : Result Bytes
  pub opens : Bool
  pub answers : Bytes → Answer

abbrev pub all_lower : Bytes → Bool
all_lower [] = true
all_lower (c ∷ cs) = leb b'a' c && leb c b'z' && all_lower cs

-- "sd" and letters.
abbrev pub is_sd_name : Bytes → Bool
is_sd_name (s ∷ d ∷ c ∷ cs) = s == b's' && d == b'd' && all_lower (c ∷ cs)
is_sd_name _ = false

abbrev pub says : Result Bytes → String → Bool
says (err e) literal = false
says (ok text) literal = str_is text literal

unfoldable pub is_sata_rotational_block_device : Drive → Bool
unfolding read_text
is_sata_rotational_block_device d =
    is_sd_name d.name && says (read_text 64 d.vendor) "ATA" && says (read_text 64 d.rotational) "1"

-- The commands sent to a drive, and what came of them.
pub record Asked : Type 0 where
  pub commands : List Bytes
  pub temperature : Result ℕ

-- A drive that answered the first command.
unfoldable pub ask_running : Drive → Result Bool → Asked
unfolding ata_read_smart_data parse_ata_smart_temperature
ask_running d (ok true) = record {
  commands = check_power_mode ∷ read_smart_data ∷ [];
  temperature = ata_read_smart_data (d.answers read_smart_data) >>= λ bytes.
      parse_ata_smart_temperature (some bytes);
}
ask_running d (ok false) = record { commands = check_power_mode ∷ []; temperature = err enodata }
ask_running d (err e) = record { commands = check_power_mode ∷ []; temperature = err e }

unfoldable pub ask_drive : Drive → Asked
unfolding is_sata_rotational_block_device ata_check_power_mode ask_running
ask_drive d =
    if not (is_sata_rotational_block_device d) || not d.opens
    then record { commands = []; temperature = err enodata }
    else ask_running d (ata_check_power_mode (d.answers check_power_mode))

-- `temperature > *maximum`
unfoldable pub hotter_of : ℕ → ℤ → ℤ
hotter_of t (negsuc n) = pos t
hotter_of t (pos m) = if ltb m t then pos t else pos m

-- The highest temperature, from `maximum` on.
unfoldable pub hottest_drive : List Drive → ℤ → ℤ
unfolding ask_drive hotter_of
hottest_drive [] maximum = maximum
hottest_drive (d ∷ ds) maximum =
    hottest_drive ds
      (elim (ask_drive d).temperature [ ok t ↦ hotter_of t maximum | err e ↦ maximum ])

-- `none` is a directory that can not be opened.
unfoldable pub smart_hdd_celsius : Option (List Drive) → ℤ → ℤ
unfolding hottest_drive
smart_hdd_celsius none maximum = maximum
smart_hdd_celsius (some ds) maximum = hottest_drive ds maximum
