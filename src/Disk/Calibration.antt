-- ===== src/Disk/Calibration.antt =====
-- The calibration of disk bays, disk/disk.c: `known_bay_limit`, `valid_topology` and
-- `read_calibration`.
pub mod Laws
use ugreen_nas_hardware.Prelude.{
  ℕ, zero, suc, ◌+◌, ◌-◌, Bool, true, false, not, ◌&&◌, ◌||◌, List, [], ◌∷◌, ◌++◌, Option, none,
  some, ltb, leb, ◌==◌, if◌then◌else◌, length, get_or, drop, take, Bytes, bytes_eq, codes, Result,
  ok, err, ◌>>=◌, Errno, from_kernel,
}
use ugreen_nas_hardware.Prelude.Scan.{
  is_space, is_digit, is_empty, until_nul, skip_spaces, trim_end,
}
use ugreen_nas_hardware.Fan.Snapshot.{after_prefix}
use ugreen_nas_hardware.Disk.Types.{failed}
use ugreen_nas_hardware.Disk.Firmware.Types.{FirmwareRule, FirmwareLayout}
use ugreen_nas_hardware.Disk.Firmware.{disk_firmware_layout}
use ugreen_nas_hardware.Disk.Resolve.{parse_number, selector_slot, is_prefixed}

-- The number of a slot `ataN`.
abbrev ata_number : Option Bytes → Option ℕ
unfolding parse_number
ata_number none = none
ata_number (some digits) = parse_number digits

abbrev raised : Option ℕ → ℕ → ℕ
raised none limit = limit
raised (some slot) limit = if ltb limit slot then slot else limit

unfoldable pub largest_bay : List FirmwareRule → ℕ → ℕ
unfolding parse_number
largest_bay [] limit = limit
largest_bay (rule ∷ rules) limit =
    largest_bay rules (raised (ata_number (after_prefix (codes "ata") rule.slot)) limit)

abbrev limit_of : Option FirmwareLayout → ℕ
unfolding largest_bay
limit_of none = 8
limit_of (some layout) = largest_bay layout.rules 0

unfoldable pub known_bay_limit : Bytes → ℕ
unfolding disk_firmware_layout largest_bay
known_bay_limit model = limit_of (disk_firmware_layout (some model) (some (codes "rev1")))

-- `isxdigit`
abbrev pub is_hex_digit : ℕ → Bool
unfolding is_digit
is_hex_digit c = is_digit c || (leb b'A' c && leb c b'F') || (leb b'a' c && leb c b'f')

-- From the `i`-th character on; the separators stand at 4, 7 and 10.
abbrev pub hex_but_separators : ℕ → Bytes → Bool
unfolding is_digit
hex_but_separators i [] = true
hex_but_separators i (c ∷ cs) =
    ((i == 4) || (i == 7) || (i == 10) || is_hex_digit c) && hex_but_separators (suc i) cs

-- A PCI function, as in 0000:00:17.0.
unfoldable pub is_pci : Bytes → Bool
unfolding is_digit
is_pci s =
    (length s == 12)
    && (get_or s 4 0 == b':')
    && (get_or s 7 0 == b':')
    && (get_or s 10 0 == b'.')
    && hex_but_separators 0 s
    && leb b'0' (get_or s 11 0)
    && leb (get_or s 11 0) b'7'

abbrev is_port : Option ℕ → Bool
is_port none = false
is_port (some port) = not (port == 0) && leb port 1024

-- `pci-`, a PCI function, `-ata-` and the number of a port.
unfoldable pub valid_topology : Bytes → Bool
unfolding is_pci parse_number
valid_topology value =
    not (ltb (length value) 22)
    && is_prefixed (after_prefix (codes "pci-") value)
    && is_prefixed (after_prefix (codes "-ata-") (drop 16 value))
    && is_pci (take 12 (drop 4 value))
    && is_port (parse_number (drop 21 value))

-- One bay of `struct calibration`, with its `slot` and its `topology`.
pub record CalibrationBay : Type 0 where
  pub slot : ℕ
  pub topology : Bytes

-- `bays` has `count` elements.
pub record Calibration : Type 0 where
  pub bays : List CalibrationBay
  pub present : Bool

abbrev pub line_size : ℕ
line_size = 512

-- What `fgets` stores, up to the end of the file, in a buffer that has `room` characters left;
-- `current` is what a piece holds so far. The flag is `feof` after the piece.
unfoldable pub pieces_from : ℕ → Bytes → Bytes → List (Bytes × Bool)
pieces_from room current [] = if is_empty current then [] else (current, true) ∷ []
pieces_from room current (c ∷ cs) =
    let full = (current ++ c ∷ [], false) ∷ pieces_from (line_size - 1) [] cs in
    let more = pieces_from (room - 1) (current ++ c ∷ []) cs in
    if c == b'\n' || leb room 1 then full else more

-- `trim`
abbrev pub trim_text : Bytes → Bytes
unfolding skip_spaces trim_end
trim_text s = trim_end (skip_spaces s)

abbrev prepended : ℕ → Option (Bytes × Bytes) → Option (Bytes × Bytes)
prepended c none = none
prepended c (some (first, rest)) = some (c ∷ first, rest)

-- `strchr(text, ' ')`: what stands before it and after it.
unfoldable pub split_space : Bytes → Option (Bytes × Bytes)
split_space [] = none
split_space (c ∷ cs) =
    let later = prepended c (split_space cs) in if c == b' ' then some ([], cs) else later

unfoldable pub is_taken : ℕ → Bytes → List CalibrationBay → Bool
unfolding bytes_eq
is_taken slot topology [] = false
is_taken slot topology (bay ∷ bays) =
    (bay.slot == slot) || bytes_eq bay.topology topology || is_taken slot topology bays

-- A bay with the selector and the topology of a line.
unfoldable pub place_bay : Bytes → List CalibrationBay → ℕ → Bytes → Result (List CalibrationBay)
unfolding known_bay_limit valid_topology is_taken
place_bay model bays slot topology =
    if (slot == 0)
      || ltb (known_bay_limit model) slot
      || not (valid_topology topology)
      || leb 128 (length topology)
      || is_taken slot topology bays
    then err failed
    else ok (bays ++ record { slot = slot; topology = topology } ∷ [])

unfoldable pub place_topology :
    Bytes → List CalibrationBay → ℕ → Option Bytes → Result (List CalibrationBay)
unfolding place_bay
place_topology model bays slot none = err failed
place_topology model bays slot (some topology) = place_bay model bays slot topology

-- A line that is cut at its first space.
unfoldable pub read_bay :
    Bytes → List CalibrationBay → Option (Bytes × Bytes) → Result (List CalibrationBay)
unfolding place_topology selector_slot skip_spaces trim_end
read_bay model bays none = err failed
read_bay model bays (some (name, rest)) =
    place_topology model bays (selector_slot name)
      (after_prefix (codes "topology=") (trim_text rest))

-- `model_seen`, and the bays so far.
pub record CalibrationState : Type 0 where
  pub model_seen : Bool
  pub bays_seen : List CalibrationBay

-- A line that is neither blank nor a comment: the model once, then bays.
unfoldable pub read_setting :
    Bytes → CalibrationState → Bytes → Option Bytes → Result CalibrationState
unfolding read_bay split_space bytes_eq
read_setting model state text (some value) =
    if state.model_seen || not (bytes_eq value model)
    then err failed
    else ok (record state { model_seen = true })
read_setting model state text none =
    if not state.model_seen || leb 8 (length state.bays_seen)
    then err failed
    else read_bay model state.bays_seen (split_space text) >>= λ bays.
        ok (record state { bays_seen = bays })

abbrev pub has_newline : Bytes → Bool
has_newline [] = false
has_newline (c ∷ cs) = (c == b'\n') || has_newline cs

abbrev pub is_blank : Bytes → Bool
is_blank [] = true
is_blank (c ∷ cs) = c == b'#'

-- One pass of the `while`.
unfoldable pub read_piece : Bytes → CalibrationState → Bytes × Bool → Result CalibrationState
unfolding read_setting until_nul skip_spaces trim_end
read_piece model state (piece, at_end) =
    let line = until_nul piece in
    let text = trim_text line in
    if not (has_newline line) && not at_end
    then err failed
    else if is_blank text
    then ok state
    else read_setting model state text (after_prefix (codes "model=") text)

unfoldable pub read_pieces :
    Bytes → CalibrationState → List (Bytes × Bool) → Result CalibrationState
unfolding read_piece
read_pieces model state [] = ok state
read_pieces model state (piece ∷ pieces) =
    read_piece model state piece >>= λ state'. read_pieces model state' pieces

-- What the file is: the tests after `fstat`, and its text with `ferror` at the end, `none` where
-- `fdopen` fails.
pub record CalibrationFile : Type 0 where
  pub is_protected : Bool
  pub stream : Option (Bytes × Bool)

abbrev pub is_nil : List CalibrationBay → Bool
is_nil [] = true
is_nil (bay ∷ bays) = false

abbrev pub finish_calibration : Bool → CalibrationState → Result Calibration
finish_calibration failed_reading state =
    if failed_reading || not state.model_seen || is_nil state.bays_seen
    then err failed
    else ok (record { bays = state.bays_seen; present = true })

unfoldable pub read_stream : Bytes → Option (Bytes × Bool) → Result Calibration
unfolding read_pieces pieces_from
read_stream model none = err failed
read_stream model (some (text, failed_reading)) =
    read_pieces model (record { model_seen = false; bays_seen = [] })
      (pieces_from (line_size - 1) [] text)
    >>= λ state. finish_calibration failed_reading state

abbrev pub no_calibration : Calibration
no_calibration = record { bays = []; present = false }

-- ENOENT
abbrev pub is_enoent : Errno → Bool
is_enoent (from_kernel n) = n == 2
is_enoent _ = false

-- `opened` is what `open` and `fstat` give. `cal` is empty before, as in the only call.
unfoldable pub read_calibration : Bool → Bytes → Result CalibrationFile → Result Calibration
unfolding read_stream
read_calibration optional model (err e) =
    if optional && is_enoent e then ok no_calibration else err failed
read_calibration optional model (ok file) =
    if not file.is_protected then err failed else read_stream model file.stream
