-- ===== src/Prelude/Scan.antt =====
-- Texts as the C library reads them: `isspace` and `isdigit` of the C locale, the digits of base 10,
-- and the end of a C string.
pub mod Laws
pub mod Words
use Prim.Native.Nat.{ℕ, zero, suc, ◌+◌, ◌-◌, ◌*◌, ◌%◌, ◌^◌}
use mathlib.Core.Bool.{Bool, true, false, not, ◌&&◌, ◌||◌}
use mathlib.Core.List.{[], ◌∷◌}
use ugreen_nas_hardware.Prelude.Tests.{ltb, leb, ◌==◌, if◌then◌else◌}
use ugreen_nas_hardware.Prelude.Text.{Bytes}
use ugreen_nas_hardware.Prelude.Errors.{Result, ok, err, eio}

unfoldable pub is_space : ℕ → Bool
is_space c = (c == b' ') || (leb 9 c && leb c 13)

unfoldable pub is_digit : ℕ → Bool
is_digit c = leb b'0' c && leb c b'9'

-- The characters before the first NUL.
unfoldable pub until_nul : Bytes → Bytes
until_nul [] = []
until_nul (c ∷ cs) = let rest = until_nul cs in if c == 0 then [] else c ∷ rest

unfoldable pub skip_spaces : Bytes → Bytes
unfolding is_space
skip_spaces [] = []
skip_spaces (c ∷ cs) = let rest = skip_spaces cs in if is_space c then rest else c ∷ cs

-- The number that continues `acc`, and what follows its digits.
unfoldable pub digits : ℕ → Bytes → ℕ × Bytes
unfolding is_digit
digits acc [] = (acc, [])
digits acc (c ∷ cs) =
    let more = digits (acc * 10 + (c - b'0')) cs in if is_digit c then more else (acc, c ∷ cs)

abbrev pub starts_digit : Bytes → Bool
starts_digit [] = false
starts_digit (c ∷ cs) = is_digit c

abbrev pub is_empty : Bytes → Bool
is_empty [] = true
is_empty (c ∷ cs) = false

-- Drop the white space at the end.
unfoldable pub trim_end : Bytes → Bytes
unfolding is_space
trim_end [] = []
trim_end (c ∷ cs) = let rest = trim_end cs in if is_empty rest && is_space c then [] else c ∷ rest

-- What `strtoul` gives in base 10: the value of 64 bits, `end`, and whether `errno` was set.
pub record Unsigned : Type 0 where
  pub value : ℕ
  pub rest : Bytes
  pub out_of_range : Bool

-- `s` stands after the sign; without digits `end` is the start of the text. A minus sign wraps.
abbrev pub unsigned_from : Bytes → Bool → Bytes → Unsigned
unsigned_from text negative s =
    let (n, rest) = digits 0 s in
    if starts_digit s
    then record {
      value = if negative then (2 ^ 64 - n) % 2 ^ 64 else n;
      rest = rest;
      out_of_range = leb (2 ^ 64) n;
    }
    else record { value = 0; rest = text; out_of_range = false }

abbrev pub unsigned_signed : Bytes → Bytes → Unsigned
unsigned_signed text [] = unsigned_from text false []
unsigned_signed text (c ∷ cs) =
    if c == b'-'
    then unsigned_from text true cs
    else if c == b'+'
    then unsigned_from text false cs
    else unsigned_from text false (c ∷ cs)

-- Out of range the value is unspecified here; the callers look at `errno` first.
unfoldable pub strtoul : Bytes → Unsigned
unfolding skip_spaces digits
strtoul text = unsigned_signed text (skip_spaces text)

-- `out_of_range` is `errno == ERANGE`; `converted` is `end != cursor`.
pub record Converted : Type 0 where
  pub negative : Bool
  pub magnitude : ℕ
  pub rest : Bytes
  pub converted : Bool
  pub out_of_range : Bool

-- After the sign.
abbrev pub converted_from : Bool → Bytes → Converted
converted_from negative s =
    let (n, rest) = digits 0 s in
    record {
      negative = negative && not (n == 0);
      magnitude = n;
      rest = rest;
      converted = starts_digit s;
      out_of_range = if negative then ltb (2 ^ 63) n else leb (2 ^ 63) n;
    }

-- `strtoll` in base 10, and `strtol`, which has 64 bits too; `s` does not start with a space.
unfoldable pub strtoll : Bytes → Converted
unfolding digits
strtoll [] = converted_from false []
strtoll (c ∷ cs) =
    if c == b'-'
    then converted_from true cs
    else if c == b'+'
    then converted_from false cs
    else converted_from false (c ∷ cs)

-- What `fgets` stores of a text in a buffer with `room` characters: up to its first newline.
unfoldable pub first_piece : ℕ → Bytes → Bytes
first_piece zero text = []
first_piece (suc room) [] = []
first_piece (suc room) (c ∷ cs) =
    let more = first_piece room cs in if c == b'\n' then c ∷ [] else c ∷ more

-- The helpers `read_text`: the first line of a file in a buffer of `size` bytes, up to its first NUL
-- and without white space at the end; an empty file is an error.
unfoldable pub read_text : ℕ → Result Bytes → Result Bytes
unfolding first_piece until_nul trim_end
read_text size (err e) = err e
read_text size (ok []) = err eio
read_text size (ok (c ∷ cs)) = ok (trim_end (until_nul (first_piece (size - 1) (c ∷ cs))))
