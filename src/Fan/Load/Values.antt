-- ===== src/Fan/Load/Values.antt =====
-- The values of the configuration file: numbers, Booleans and lists with commas.
use ugreen_nas_hardware.Prelude.{
  ℕ, zero, suc, ◌-◌, ◌^◌, Bool, true, false, not, ◌||◌, List, [], ◌∷◌, leb, ltb, ◌==◌,
  if◌then◌else◌, length, Bytes, str_is, Result, ok, err, ◌>>=◌, einval,
}
use ugreen_nas_hardware.Prelude.Scan.{is_empty, strtoul}
use ugreen_nas_hardware.Fan.Curve.{CurveThresholds, CurvePwmPoints}
use ugreen_nas_hardware.Fan.Config.{thresholds, points}

unfoldable pub parse_unsigned : Bytes → Result ℕ
unfolding strtoul
parse_unsigned text =
    let parsed = strtoul text in
    if parsed.out_of_range
      || is_empty text
      || not (is_empty parsed.rest)
      || ltb (2 ^ 32 - 1) parsed.value
    then err einval
    else ok parsed.value

unfoldable pub parse_boolean : Bytes → Result Bool
parse_boolean text =
    if str_is text "true" || str_is text "1"
    then ok true
    else if str_is text "false" || str_is text "0"
    then ok false
    else err einval

abbrev pub add_first : ℕ → List Bytes → List Bytes
add_first c [] = (c ∷ []) ∷ []
add_first c (part ∷ parts) = (c ∷ part) ∷ parts

-- The parts that `strsep` cuts at commas, at least one.
unfoldable pub split_commas : Bytes → List Bytes
split_commas [] = [] ∷ []
split_commas (c ∷ cs) =
    let parts = split_commas cs in if c == b',' then [] ∷ parts else add_first c parts

-- The values of the parts, where there is room for `room` more.
unfoldable pub parse_parts : ℕ → List Bytes → Result (List ℕ)
parse_parts room [] = ok []
parse_parts zero (part ∷ parts) = err einval
parse_parts (suc room) (part ∷ parts) =
    parse_unsigned part >>= λ n. parse_parts room parts >>= λ ns. ok (n ∷ ns)

abbrev pub thresholds_of : List ℕ → Result CurveThresholds
thresholds_of (a ∷ b ∷ c ∷ d ∷ e ∷ []) = ok (thresholds a b c d e)
thresholds_of _ = err einval

abbrev pub points_of : List ℕ → Result CurvePwmPoints
points_of (a ∷ b ∷ c ∷ d ∷ []) = ok (points a b c d)
points_of _ = err einval

-- The text is copied into 96 bytes.
unfoldable pub parse_thresholds : Bytes → Result CurveThresholds
unfolding split_commas parse_parts
parse_thresholds text =
    if leb 96 (length text) then err einval else parse_parts 5 (split_commas text) >>= thresholds_of

unfoldable pub parse_pwm_points : Bytes → Result CurvePwmPoints
unfolding split_commas parse_parts
parse_pwm_points text =
    if leb 96 (length text) then err einval else parse_parts 4 (split_commas text) >>= points_of
