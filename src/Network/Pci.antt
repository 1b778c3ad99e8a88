-- ===== src/Network/Pci.antt =====
-- The physical Ethernet interfaces, network/wol.c: what the file `uevent` of an interface says, and
-- the search for renamed ones. A name that is shorter than 16 bytes always fits into the path.
use ugreen_nas_hardware.Prelude.{
  ℕ, ◌+◌, ◌-◌, ◌*◌, ◌/◌, ◌%◌, ◌^◌, Bool, true, false, not, ◌&&◌, ◌||◌, List, [], ◌∷◌, Option, none,
  some, map, ltb, leb, ◌==◌, if◌then◌else◌, length, take, Bytes, codes, Result, ok, err, ◌>>=◌,
  enodev, e2big,
}
use ugreen_nas_hardware.Prelude.Scan.{is_digit, skip_spaces, until_nul}
use ugreen_nas_hardware.Fan.Load.{lines_from, line_room}
use ugreen_nas_hardware.Fan.Snapshot.{after_prefix}

abbrev pub max_runtime_interfaces : ℕ
max_runtime_interfaces = 8

-- IFNAMSIZ
abbrev pub name_size : ℕ
name_size = 16

pub record RuntimeInterface : Type 0 where
  pub name : Bytes
  pub pci_slot : Bytes

-- What the system answers: whether an interface has an index, its file `uevent`, the entries of the
-- directory of interfaces, and the socket.
pub record WolCalls : Type 0 where
  pub present : Bytes → Bool
  pub uevent : Bytes → Option Bytes
  pub entries : Result (List Bytes)
  pub socket : Result (Unit {0})

unfoldable pub hex_value : ℕ → Option ℕ
hex_value c =
    if is_digit c
    then some (c - b'0')
    else if leb b'a' c && leb c b'f'
    then some (c - b'a' + 10)
    else if leb b'A' c && leb c b'F'
    then some (c - b'A' + 10)
    else none

unfoldable pub hex_digits : ℕ → Bytes → ℕ
unfolding hex_value is_digit
hex_digits acc [] = acc
hex_digits acc (c ∷ cs) = elim (hex_value c) [ none ↦ acc | some v ↦ hex_digits (acc * 16 + v) cs ]

unfoldable pub starts_hex : Bytes → Bool
unfolding hex_value is_digit
starts_hex [] = false
starts_hex (c ∷ cs) = elim (hex_value c) [ none ↦ false | some v ↦ true ]

-- The prefix 0x, where a digit follows it.
unfoldable pub after_0x : Bytes → Bytes
unfolding starts_hex
after_0x (z ∷ x ∷ s) =
    if z == b'0' && (x == b'x' || x == b'X') && starts_hex s then s else z ∷ x ∷ s
after_0x s = s

-- After the sign; `none` without digits or where `errno` is set.
unfoldable pub hex_from : Bool → Bytes → Option ℕ
unfolding after_0x hex_digits starts_hex
hex_from negative s =
    let n = hex_digits 0 (after_0x s) in
    if not (starts_hex s) || leb (2 ^ 64) n
    then none
    else some (if negative then (2 ^ 64 - n) % 2 ^ 64 else n)

unfoldable pub hex_signed : Bytes → Option ℕ
unfolding hex_from
hex_signed [] = hex_from false []
hex_signed (c ∷ cs) =
    if c == b'-'
    then hex_from true cs
    else if c == b'+'
    then hex_from false cs
    else hex_from false (c ∷ cs)

-- `strtoul` in base 16, and the class of an Ethernet controller.
unfoldable pub is_ethernet_class : Bytes → Bool
unfolding hex_signed skip_spaces
is_ethernet_class text = elim (hex_signed (skip_spaces text)) [
  | none ↦ false
  | some pci_class ↦ pci_class / 256 == 0x0200
]

-- `strcspn(text, "\r\n")`
unfoldable pub until_line_end : Bytes → Bytes
until_line_end [] = []
until_line_end (c ∷ cs) =
    let rest = until_line_end cs in if c == 13 || c == 10 then [] else c ∷ rest

-- What the lines said so far.
pub record Uevent : Type 0 where
  pub is_pci_ethernet : Bool
  pub pci_slot : Option Bytes

abbrev pub with_slot : Uevent → Bytes → Uevent
with_slot u slot =
    if (length slot == 0) || leb 32 (length slot) then u else record u { pci_slot = some slot }

unfoldable pub read_uevent_line : Uevent → Bytes → Uevent
unfolding is_ethernet_class until_line_end
read_uevent_line u line = elim (after_prefix (codes "PCI_CLASS=") line) [
  | some text ↦ if is_ethernet_class text then record u { is_pci_ethernet = true } else u
  | none ↦ elim (after_prefix (codes "PCI_SLOT_NAME=") line) [
    | some text ↦ with_slot u (until_line_end text)
    | none ↦ u
  ]
]

unfoldable pub read_uevent : List Bytes → Uevent → Uevent
unfolding read_uevent_line
read_uevent [] u = u
read_uevent (line ∷ lines) u = read_uevent lines (read_uevent_line u (until_nul line))

-- `none` for 0.
abbrev pub candidate_of : Bytes → Uevent → Option RuntimeInterface
candidate_of interface u = elim u.pci_slot [
  | none ↦ none
  | some slot ↦
      if u.is_pci_ethernet
      then some (record { name = take 15 interface; pci_slot = slot })
      else none
]

unfoldable pub read_pci_ethernet_interface : WolCalls → Bytes → Option RuntimeInterface
unfolding lines_from read_uevent
read_pci_ethernet_interface calls interface = elim (calls.uevent interface) [
  | none ↦ none
  | some text ↦ candidate_of interface (
      read_uevent (lines_from line_room [] text)
        (record { is_pci_ethernet = false; pci_slot = none }))
]

abbrev pub is_some : {A : Type 0} → Option A → Bool
is_some none = false
is_some (some a) = true

unfoldable pub is_physical : WolCalls → Bytes → Bool
unfolding read_pci_ethernet_interface
is_physical calls name = is_some (read_pci_ethernet_interface calls name)

unfoldable pub present_and_physical : WolCalls → List Bytes → Bool
unfolding is_physical
present_and_physical calls [] = true
present_and_physical calls (name ∷ names) =
    calls.present name && is_physical calls name && present_and_physical calls names

-- `strcmp(a, b) < 0`, and whether they are equal.
unfoldable pub before_text : Bytes → Bytes → Bool
before_text a [] = false
before_text [] (y ∷ ys) = true
before_text (x ∷ xs) (y ∷ ys) = let later = before_text xs ys in ltb x y || ((x == y) && later)

-- `compare_runtime_interfaces(a, b) < 0`
unfoldable pub before_interface : RuntimeInterface → RuntimeInterface → Bool
unfolding before_text
before_interface a b =
    before_text a.pci_slot b.pci_slot
    || (not (before_text b.pci_slot a.pci_slot) && before_text a.name b.name)

-- `qsort`: what compares as equal is equal.
unfoldable pub insert_interface : RuntimeInterface → List RuntimeInterface → List RuntimeInterface
unfolding before_interface
insert_interface a [] = a ∷ []
insert_interface a (b ∷ bs) =
    let rest = insert_interface a bs in if before_interface b a then b ∷ rest else a ∷ b ∷ bs

unfoldable pub sorted : List RuntimeInterface → List RuntimeInterface
unfolding insert_interface
sorted [] = []
sorted (a ∷ as') = insert_interface a (sorted as')

-- What an entry of the directory gives; hidden and long names are passed over.
unfoldable pub candidate_entry : WolCalls → Bytes → Option RuntimeInterface
candidate_entry calls [] = none
candidate_entry calls (c ∷ cs) =
    if (c == b'.') || leb name_size (length (c ∷ cs))
    then none
    else read_pci_ethernet_interface calls (c ∷ cs)

-- With room for `room` more candidates.
unfoldable pub collect : WolCalls → ℕ → List Bytes → Result (List RuntimeInterface)
unfolding candidate_entry
collect calls room [] = ok []
collect calls room (entry ∷ entries) = elim (candidate_entry calls entry) [
  | none ↦ collect calls room entries
  | some candidate ↦
      let found = collect calls (room - 1) entries in
      if room == 0 then err e2big else (found >>= λ rest. ok (candidate ∷ rest))
]

unfoldable pub discover_renamed_interfaces : WolCalls → ℕ → Result (List Bytes)
unfolding collect sorted
discover_renamed_interfaces calls expected_count = calls.entries >>= λ entries.
    collect calls max_runtime_interfaces entries >>= λ candidates.
    if length candidates == expected_count
    then ok (map (λ (c : RuntimeInterface). c.name) (sorted candidates))
    else err enodev
