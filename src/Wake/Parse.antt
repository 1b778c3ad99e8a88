-- ===== src/Wake/Parse.antt =====
-- The text of an alarm, `ugreenctl_rtc_wake_parse` of power/rtc_wake.c, with the C library's
-- `isspace` and base 10 `strtoll` that it calls.
pub mod Laws
use ugreen_nas_hardware.Prelude.{
  ℕ, ◌+◌, ◌-◌, ◌*◌, ◌^◌, Bool, true, false, not, ◌&&◌, ◌||◌, [], ◌∷◌, ltb, leb, ◌==◌, if◌then◌else◌,
  Bytes, Result, ok, err, eio, erange,
}
use ugreen_nas_hardware.Prelude.Scan.{skip_spaces, is_empty, Converted, strtoll}

-- What is made of a text that is not empty.
unfoldable pub epoch_of : Converted → Result ℕ
unfolding skip_spaces
epoch_of parsed =
    if parsed.out_of_range || not parsed.converted || not (is_empty (skip_spaces parsed.rest))
    then err eio
    else if parsed.negative
    then err erange
    else ok parsed.magnitude

-- The text is a C string; the result, an epoch, is not negative.
unfoldable pub wake_parse : Bytes → Result ℕ
unfolding skip_spaces strtoll epoch_of
wake_parse value =
    let cursor = skip_spaces value in if is_empty cursor then ok 0 else epoch_of (strtoll cursor)
