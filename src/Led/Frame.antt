-- ===== src/Led/Frame.antt =====
-- Frames on the wire, led/led_protocol.c.
pub mod Laws
use ugreen_nas_hardware.Prelude.{
  ℕ, zero, suc, ◌+◌, ◌-◌, ◌*◌, ◌/◌, ◌%◌, ◌^◌, Bool, true, false, not, ◌||◌, List, [], ◌∷◌, ◌++◌,
  Option, none, some, ltb, ◌==◌, if◌then◌else◌, get_or, drop, take, length, u8, Bytes, Result, ok,
  err, ◌>>=◌, einval, ebadmsg,
}
use ugreen_nas_hardware.Led.Types.{LedValue, zero_value, mode_breath}

abbrev pub frame_size : ℕ
frame_size = 11

-- The first `count` bytes; the sum of at most 255 bytes does not wrap.
unfoldable pub checksum : Bytes → ℕ → ℕ
checksum bytes zero = 0
checksum [] (suc n) = 0
checksum (b ∷ bs) (suc n) = b + checksum bs n

abbrev pub word_at : Bytes → ℕ → ℕ
word_at frame i = get_or frame i 0 * 256 + get_or frame (i + 1) 0

-- A frame with its length; `none` for NULL.
unfoldable pub decode : Option Bytes → Result LedValue
unfolding checksum
decode none = err einval
decode (some frame) =
    let cycle = word_at frame 5 in
    let on = word_at frame 7 in
    if not (length frame == frame_size)
    then err einval
    else if not (checksum frame 9 == word_at frame 9) || ltb mode_breath (get_or frame 0 0)
    then err ebadmsg
    else if ltb cycle on
    then err ebadmsg
    else ok (record zero_value {
      mode = get_or frame 0 0;
      brightness = get_or frame 1 0;
      red = get_or frame 2 0;
      green = get_or frame 3 0;
      blue = get_or frame 4 0;
      on_ms = on;
      off_ms = cycle - on;
    })

-- The four parameter bytes; `none` for NULL.
pub record Parameters : Type 0 where
  pub p0 : ℕ
  pub p1 : ℕ
  pub p2 : ℕ
  pub p3 : ℕ

unfoldable pub encode : ℕ → ℕ → Option Parameters → Result Bytes
unfolding checksum
encode id command none = err einval
encode id command (some p) =
    let body = 0xa0 ∷ 1 ∷ 0 ∷ 0 ∷ command ∷ p.p0 ∷ p.p1 ∷ p.p2 ∷ p.p3 ∷ [] in
    let sum = checksum body 9 in
    if ltb 9 id || ltb command 1 || ltb 5 command
    then err einval
    else ok (id ∷ body ++ u8 (sum / 2 ^ 8) ∷ u8 sum ∷ [])

-- Swap the two check bytes for a controller that wants the low byte first, and pad to 12.
abbrev pub smbus_frame : Bool → Bytes → Bytes
smbus_frame little_endian_checksum legacy =
    take 9 (drop 1 legacy)
    ++ (if little_endian_checksum
        then get_or legacy 11 0 ∷ get_or legacy 10 0 ∷ []
        else get_or legacy 10 0 ∷ get_or legacy 11 0 ∷ [])
    ++ 0 ∷ []

unfoldable pub encode_smbus : ℕ → Option Parameters → Bool → Result Bytes
unfolding encode
encode_smbus command parameters little_endian_checksum =
    encode 0 command parameters >>= λ legacy. ok (smbus_frame little_endian_checksum legacy)
