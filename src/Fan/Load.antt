-- ===== src/Fan/Load.antt =====
-- The configuration file of fan/thermal_curve.c: its lines, its values and
-- `ugreenctl_fan_curve_load_config`.
pub mod Values
pub mod Laws
use ugreen_nas_hardware.Prelude.{
  ℕ, suc, ◌+◌, ◌-◌, Bool, true, false, not, ◌||◌, List, [], ◌∷◌, ◌++◌, Option, none, some, leb, ltb,
  ◌==◌, if◌then◌else◌, length, Bytes, codes, str_is, Result, ok, err, ◌>>=◌, einval,
}
use ugreen_nas_hardware.Prelude.Scan.{is_space, is_empty, until_nul, skip_spaces, trim_end}
use ugreen_nas_hardware.Fan.Curve.{CurveThresholds, CurvePwmPoints, FanCurveConfig}
use ugreen_nas_hardware.Fan.Config.{
  config_defaults, profile_is_valid, apply_stock_profile, validate_config,
}
use Values.{parse_unsigned, parse_boolean, parse_thresholds, parse_pwm_points}

unfoldable pub trim : Bytes → Bytes
trim text = trim_end (skip_spaces text)

-- `sizeof(line) - 1`
abbrev pub line_room : ℕ
line_room = 255

-- `fgets` until the end of the file: a piece ends after a newline or when `room` more characters
-- have been read; `current` is what the piece holds so far.
unfoldable pub lines_from : ℕ → Bytes → Bytes → List Bytes
lines_from room current [] = if is_empty current then [] else current ∷ []
lines_from room current (c ∷ cs) =
    let full = (current ++ c ∷ []) ∷ lines_from line_room [] cs in
    let more = lines_from (room - 1) (current ++ c ∷ []) cs in
    if c == b'\n' || leb room 1 then full else more

abbrev pub before : ℕ → Option (Bytes × Bytes) → Option (Bytes × Bytes)
before c none = none
before c (some (key, text)) = some (c ∷ key, text)

-- `strchr(key, '=')`: what stands before it and after it.
unfoldable pub split_equals : Bytes → Option (Bytes × Bytes)
split_equals [] = none
split_equals (c ∷ cs) =
    let later = before c (split_equals cs) in if c == b'=' then some ([], cs) else later

-- `snprintf` into the 24 bytes of `profile`.
unfoldable pub set_profile : FanCurveConfig → Bytes → Result FanCurveConfig
set_profile config text =
    if leb 24 (length text) then err einval else ok (record config { profile = text })

-- A value that was parsed is stored.
abbrev assign : {A : Type 0} → Result A → (A → FanCurveConfig) → Result FanCurveConfig
assign (err e) store = err e
assign (ok a) store = ok (store a)

-- A key that is not known is passed over.
unfoldable pub set_value : FanCurveConfig → Bytes → Bytes → Result FanCurveConfig
unfolding set_profile
set_value config key text =
    if str_is key "profile"
    then set_profile config text
    else if str_is key "interval_seconds"
    then assign (parse_unsigned text) (λ n. record config { interval_seconds = n })
    else if str_is key "downshift_delay_seconds"
    then assign (parse_unsigned text) (λ n. record config { downshift_delay_seconds = n })
    else if str_is key "minimum_pwm"
    then assign (parse_unsigned text) (λ n. record config { minimum_pwm = n })
    else if str_is key "failsafe_pwm"
    then assign (parse_unsigned text) (λ n. record config { failsafe_pwm = n })
    else if str_is key "require_storage_sensor"
    then assign (parse_boolean text) (λ b. record config { require_storage_sensor = b })
    else if str_is key "allow_unvalidated_writes"
    then assign (parse_boolean text) (λ b. record config { allow_unvalidated_writes = b })
    else if str_is key "hdd_curve_enabled"
    then assign (parse_boolean text) (λ b. record config { hdd_curve_enabled = b })
    else if str_is key "ssd_curve_enabled"
    then assign (parse_boolean text) (λ b. record config { ssd_curve_enabled = b })
    else if str_is key "cpu"
    then assign (parse_thresholds text) (λ t. record config { cpu = t })
    else if str_is key "hdd"
    then assign (parse_thresholds text) (λ t. record config { hdd = t })
    else if str_is key "ssd"
    then assign (parse_thresholds text) (λ t. record config { ssd = t })
    else if str_is key "pwm"
    then assign (parse_pwm_points text) (λ p. record config { pwm = p })
    else ok config

-- Blank lines and comments are passed over.
unfoldable pub is_skipped : Bytes → Bool
is_skipped [] = true
is_skipped (c ∷ cs) = c == b'#' || c == b';'

-- A key and its value, or a line without `=`.
unfoldable pub set_split : FanCurveConfig → Option (Bytes × Bytes) → Result FanCurveConfig
unfolding set_value trim
set_split config none = err einval
set_split config (some (key, text)) = set_value config (trim key) (trim text)

-- One pass of the `while`, on what `fgets` stored up to the first NUL.
unfoldable pub read_line : FanCurveConfig → Bytes → Result FanCurveConfig
unfolding is_skipped split_equals set_split trim
read_line config line =
    let key = trim (until_nul line) in
    if is_skipped key then ok config else set_split config (split_equals key)

unfoldable pub read_lines : FanCurveConfig → List Bytes → Result FanCurveConfig
unfolding read_line
read_lines config [] = ok config
read_lines config (line ∷ lines) = read_line config line >>= λ c. read_lines c lines

-- After the file is closed.
unfoldable pub complete : FanCurveConfig → FanCurveConfig
complete config =
    if str_is config.profile "custom"
    then record config { system_pwm = config.pwm; cpu_pwm = config.pwm }
    else apply_stock_profile config

unfoldable pub finish_config : FanCurveConfig → Result FanCurveConfig
unfolding complete
finish_config config =
    if not (profile_is_valid config.profile)
    then err einval
    else validate_config (some (complete config)) >>= λ _. ok (complete config)

-- `none` for a NULL path; `opened` has the text of the file, or the errno of `fopen`.
unfoldable pub load_config : Option (Result Bytes) → Result FanCurveConfig
unfolding read_lines finish_config lines_from
load_config none = err einval
load_config (some opened) = opened >>= λ text.
    read_lines config_defaults (lines_from line_room [] text) >>= λ config. finish_config config
