-- ===== src/Fan/Load/Laws.antt =====
-- A configuration that was written to a file is loaded again.
pub mod Lines
pub mod RoundTrip
pub mod Safe
use ugreen_nas_hardware.Prelude.{
  ℕ, ◌+◌, ◌*◌, ◌^◌, ◌<◌, ◌≤◌, ◌≡◌, ◌≢◌, ◌∙◌, refl, sym, ap, arith, Bool, true, false, List, [], ◌∷◌,
  ◌++◌, length, length-append, leb, if◌then◌else◌, Bytes, codes, str_is, map, zero, suc, All, ltb,
  ◌==◌, ◌-◌, einval, Result, ok, err, ◌>>=◌,
}
use ugreen_nas_hardware.Prelude.Decimal.{decimal}
use ugreen_nas_hardware.Prelude.Scan.{is_empty, is_space}
use ugreen_nas_hardware.Prelude.Scan.Words.{
  IsSolid, IsWord, IsWord-append, All-decimal, decimal-IsWord, decimal-ne-nil, length-decimal,
  strtoul-decimal,
}
use ugreen_nas_hardware.Fan.Curve.{CurveThresholds, CurvePwmPoints}
use ugreen_nas_hardware.Fan.Config.{thresholds, points}
use ugreen_nas_hardware.Fan.Load.Values.{
  parse_unsigned, parse_boolean, split_commas, add_first, parse_parts, parse_thresholds,
  parse_pwm_points,
}

is_empty-decimal : (n : ℕ) → is_empty (decimal n) ≡ false
is_empty-decimal n = by_text (decimal n) (decimal-ne-nil n)
  where
    by_text : (s : Bytes) → s ≢ [] → is_empty s ≡ false
    by_text [] ne = absurd (ne refl)
    by_text (c ∷ cs) ne = refl

pub parse_unsigned-decimal : (n : ℕ) → n < 2 ^ 32 → parse_unsigned (decimal n) ≡ ok n
unfolding parse_unsigned
parse_unsigned-decimal n h = rw (strtoul-decimal n h, is_empty-decimal n) (in_range n h)
  where
    in_range : (n : ℕ) → n < 2 ^ 32 → (if ltb (2 ^ 32 - 1) n then err einval else ok n) ≡ ok n
    in_range n h = ground arith

abbrev pub NoComma : Bytes → Type 0
NoComma = All (λ c. (c == b',') ≡ false)

decimal-NoComma : (n : ℕ) → NoComma (decimal n)
decimal-NoComma = All-decimal (λ c. (c == b',') ≡ false) (λ d h. ground arith)

-- Text and Booleans as the parser takes them.
abbrev pub boolean_text : Bool → Bytes
boolean_text true = codes "true"
boolean_text false = codes "false"

pub parse_boolean-text : (b : Bool) → parse_boolean (boolean_text b) ≡ ok b
unfolding parse_boolean str_is
parse_boolean-text true = refl
parse_boolean-text false = refl

-- The numbers with commas between them.
abbrev pub commas : ℕ → List ℕ → Bytes
commas n [] = decimal n
commas n (m ∷ ms) = decimal n ++ b',' ∷ commas m ms

split_commas-part : (s t : Bytes) → NoComma s → split_commas (s ++ b',' ∷ t) ≡ s ∷ split_commas t
unfolding split_commas
split_commas-part [] t h = refl
split_commas-part (c ∷ cs) t h = rw (h.0, split_commas-part cs t h.1)

split_commas-last : (s : Bytes) → NoComma s → split_commas s ≡ s ∷ []
unfolding split_commas
split_commas-last [] h = refl
split_commas-last (c ∷ cs) h = rw (h.0, split_commas-last cs h.1)

split_commas-commas : (n : ℕ) (ms : List ℕ) → split_commas (commas n ms) ≡ map decimal (n ∷ ms)
split_commas-commas n [] = split_commas-last (decimal n) (decimal-NoComma n)
split_commas-commas n (m ∷ ms) =
    split_commas-part (decimal n) (commas m ms) (decimal-NoComma n)
    ∙ ap (λ parts. decimal n ∷ parts) (split_commas-commas m ms)

abbrev pub AreInts : List ℕ → Type 0
AreInts = All (λ n. n < 2 ^ 32)

parse_parts-decimals : (ns : List ℕ) → AreInts ns → parse_parts (length ns) (map decimal ns) ≡ ok ns
unfolding parse_parts
parse_parts-decimals [] h = refl
parse_parts-decimals (n ∷ ns) h =
    rw (parse_unsigned-decimal n h.0, parse_parts-decimals ns h.1) refl

pub length-commas :
    (n : ℕ) (ms : List ℕ) → AreInts (n ∷ ms) → length (commas n ms) ≤ 10 + 11 * length ms
length-commas n [] h = omega (arith, length-decimal n h.0)
length-commas n (m ∷ ms) h = omega (
  arith,
  length-decimal n h.0,
  length-append (decimal n) (b',' ∷ commas m ms),
  length-commas m ms h.1,
)

pub commas-IsWord : (n : ℕ) (ms : List ℕ) → IsWord (commas n ms)
unfolding is_space
commas-IsWord n [] = decimal-IsWord n
commas-IsWord n (m ∷ ms) =
    IsWord-append (decimal n) (b',' ∷ commas m ms) (decimal-IsWord n)
      ((refl, λ e. ground arith), commas-IsWord m ms)

abbrev pub thresholds_text : CurveThresholds → Bytes
thresholds_text t = commas t.stop (t.start ∷ t.mid ∷ t.full ∷ t.maximum ∷ [])

abbrev pub points_text : CurvePwmPoints → Bytes
points_text p = commas p.idle (p.mid ∷ p.full ∷ p.maximum ∷ [])

fits :
    (n : ℕ) (ms : List ℕ) → AreInts (n ∷ ms) → length ms ≤ 7 → leb 96 (length (commas n ms)) ≡ false
fits n ms h few = ground (arith, length-commas n ms h)

pub parse_thresholds-text :
    (t : CurveThresholds)
    → AreInts (t.stop ∷ t.start ∷ t.mid ∷ t.full ∷ t.maximum ∷ [])
    → parse_thresholds (thresholds_text t) ≡ ok t
unfolding parse_thresholds
parse_thresholds-text t h =
    let rest = t.start ∷ t.mid ∷ t.full ∷ t.maximum ∷ [] in
    rw
      (
        fits t.stop rest h (omega arith),
        split_commas-commas t.stop rest,
        parse_parts-decimals (t.stop ∷ rest) h,
      )
      refl

pub parse_pwm_points-text :
    (p : CurvePwmPoints)
    → AreInts (p.idle ∷ p.mid ∷ p.full ∷ p.maximum ∷ [])
    → parse_pwm_points (points_text p) ≡ ok p
unfolding parse_pwm_points
parse_pwm_points-text p h =
    let rest = p.mid ∷ p.full ∷ p.maximum ∷ [] in
    rw
      (
        fits p.idle rest h (omega arith),
        split_commas-commas p.idle rest,
        parse_parts-decimals (p.idle ∷ rest) h,
      )
      refl
