-- ===== src/Wake.antt =====
-- The RTC alarm of power/rtc_wake.c. The files under /sys are a parameter: `read_file path` and
-- `write_file path value` open, read or write, and close; they end with an errno or with the bytes
-- read (at most 63) or the number of bytes written.
pub mod Parse
pub mod Profiles
pub mod Laws
use ugreen_nas_hardware.Prelude.{
  ℕ, ◌+◌, ◌-◌, ◌%◌, Bool, true, false, not, ◌&&◌, ◌||◌, List, [], ◌∷◌, ◌++◌, Option, none, some,
  ltb, leb, ◌==◌, if◌then◌else◌, length, take, Bytes, codes, and_then, path_max, Result, ok, err,
  einval, eio, enametoolong, eoverflow,
}
use ugreen_nas_hardware.Prelude.Scan.{until_nul}
use ugreen_nas_hardware.Prelude.Decimal.{decimal}
use ugreen_nas_hardware.Wake.Parse.{wake_parse}

-- The files, and every write that was tried as (path, value), the latest first.
pub record World (Files : Type 0) : Type 0 where
  pub files : Files
  pub writes : List (Bytes × Bytes)

-- The path of the clock beside the alarm.
abbrev pub clock_path : Bytes → Bytes
clock_path path = take (length path - length (codes "wakealarm")) path ++ codes "since_epoch"

-- |a - b|
abbrev pub distance : ℕ → ℕ → ℕ
distance a b = if ltb b a then a - b else b - a

-- `system_now` is `none` for (time_t)-1.
unfoldable pub clock_differs : Option ℕ → ℕ → Bool
clock_differs none rtc_now = true
clock_differs (some system_now) rtc_now = (rtc_now == 0) || ltb 5 (distance rtc_now system_now)

-- `resolution_seconds` is `none` for a NULL profile.
unfoldable pub rtc_validate_epoch : Option ℕ → ℕ → Option ℕ → Result (Unit {0})
rtc_validate_epoch (some resolution) epoch (some now) =
    if (resolution == 0) || leb epoch now || leb (epoch - now) 60
    then err einval
    else if not (epoch % resolution == 0)
    then err einval
    else ok tt
rtc_validate_epoch _ epoch _ = err einval

module _ {Files : Type 0} (read_file : Bytes → Files → Result Bytes × Files)
    (write_file : Bytes → Bytes → Files → Result ℕ × Files) where
  unfoldable pub write_wakealarm : Bytes → Bytes → World Files → Result (Unit {0}) × World Files
  write_wakealarm path value w =
      let (result, files') = write_file path value w.files in
      and_then (result, record { files = files'; writes = (path, value) ∷ w.writes })
        (λ written w'. (if written == length value then ok tt else err eio, w'))

  unfoldable pub read_alarm : Bytes → World Files → Result ℕ × World Files
  read_alarm path w =
      let (result, files') = read_file path w.files in
      and_then (result, record w { files = files' })
        (λ value w'.
          (if length value == 63 then err eoverflow else wake_parse (until_nul value), w'))

  -- Before an alarm is set: the clock of the RTC must be that of the system.
  unfoldable pub check_clock : Bytes → Option ℕ → World Files → Result (Unit {0}) × World Files
  unfolding read_alarm
  check_clock path system_now w =
      let clock = clock_path path in
      let now = read_alarm clock w in
      if leb path_max (length clock)
      then (err enametoolong, w)
      else and_then now
          (λ rtc_now w'. (if clock_differs system_now rtc_now then err einval else ok tt, w'))

  -- Write a value, and read back that the alarm is `epoch`.
  unfoldable pub write_and_confirm :
      Bytes → Bytes → ℕ → World Files → Result (Unit {0}) × World Files
  unfolding write_wakealarm read_alarm
  write_and_confirm path value epoch w = and_then (write_wakealarm path value w) (λ _ w₁.
      and_then (read_alarm path w₁)
        (λ observed w₂. (if observed == epoch then ok tt else err eio, w₂)))

  -- After `path` has been selected.
  unfoldable pub update_selected :
      Bytes → Option ℕ → ℕ → World Files → Result (Unit {0}) × World Files
  unfolding check_clock write_and_confirm
  update_selected path system_now epoch w =
      let checked = if epoch == 0 then (ok tt, w) else check_clock path system_now w in
      and_then checked (λ _ w₁. and_then (read_alarm path w₁) (λ _ w₂.
        and_then (write_and_confirm path (codes "0") 0 w₂) (λ _ w₃.
          if epoch == 0 then (ok tt, w₃) else write_and_confirm path (decimal epoch) epoch w₃)))

  -- `selected` is the answer of `ugreenctl_rtc_select_at`.
  unfoldable pub update_alarm :
      Result Bytes → Option ℕ → ℕ → World Files → Result (Unit {0}) × World Files
  unfolding update_selected
  update_alarm selected system_now epoch w =
      and_then (selected, w) (λ path w'. update_selected path system_now epoch w')

  unfoldable pub rtc_wake_clear :
      Result Bytes → Option ℕ → World Files → Result (Unit {0}) × World Files
  unfolding update_alarm
  rtc_wake_clear selected system_now w = update_alarm selected system_now 0 w

  -- The two calls of `time` in their order.
  unfoldable pub rtc_wake_set :
      Option ℕ
      → Result Bytes
      → Option ℕ
      → Option ℕ
      → ℕ
      → World Files
      → Result (Unit {0}) × World Files
  unfolding update_alarm rtc_validate_epoch
  rtc_wake_set resolution selected now system_now epoch w =
      and_then (rtc_validate_epoch resolution epoch now, w)
        (λ _ w'. update_alarm selected system_now epoch w')

  unfoldable pub rtc_wake_read : Result Bytes → World Files → Result ℕ × World Files
  unfolding read_alarm
  rtc_wake_read selected w = and_then (selected, w) (λ path w'. read_alarm path w')
