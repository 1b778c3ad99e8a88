-- ===== src/Wake/Parse/Laws.antt =====
-- Parsing gives back a number that was printed.
use ugreen_nas_hardware.Prelude.{
  ℕ, suc, ◌^◌, ◌<◌, ◌≡◌, ◌∙◌, refl, sym, ap, leb, arith, true, false, [], ◌∷◌, ◌++◌, if◌then◌else◌,
  Bytes, ok,
}
use ugreen_nas_hardware.Prelude.Scan.{
  is_space, is_digit, skip_spaces, digits, starts_digit, is_empty, converted_from, strtoll,
}
use ugreen_nas_hardware.Prelude.Scan.Laws.{
  digits-decimal_fuel, decimal_fuel-digit, decimal_fuel-append, skip_spaces-digit,
}
use ugreen_nas_hardware.Prelude.Decimal.{decimal}
use ugreen_nas_hardware.Wake.Parse.{epoch_of, wake_parse}

strtoll-digit :
    (c : ℕ) (cs : Bytes) → is_digit c ≡ true → strtoll (c ∷ cs) ≡ converted_from false (c ∷ cs)
unfolding strtoll is_digit
strtoll-digit c cs d = ground (arith, d)

-- What is made of the digits of a text that starts with one, before a newline.
converted_from-digits :
    (s : Bytes) (n : ℕ)
    → starts_digit s ≡ true
    → digits 0 s ≡ (n, 10 ∷ [])
    → n < 2 ^ 63
    → converted_from false s ≡ record {
      negative = false;
      magnitude = n;
      rest = 10 ∷ [];
      converted = true;
      out_of_range = false;
    }
converted_from-digits s n d e h = rw (d, e, not_out n h) refl
  where
    not_out : (n : ℕ) → n < 2 ^ 63 → leb (2 ^ 63) n ≡ false
    not_out n h = ground arith

parse_digits :
    (c n : ℕ) (cs : Bytes)
    → is_digit c ≡ true
    → digits 0 (c ∷ cs) ≡ (n, 10 ∷ [])
    → n < 2 ^ 63
    → wake_parse (c ∷ cs) ≡ ok n
unfolding wake_parse epoch_of skip_spaces is_space
parse_digits c n cs d e h =
    ap (λ s. if is_empty s then ok 0 else epoch_of (strtoll s)) (skip_spaces-digit c cs d)
    ∙ ap epoch_of (strtoll-digit c cs d ∙ converted_from-digits (c ∷ cs) n d e h)

newline : (n : ℕ) → digits n (10 ∷ []) ≡ (n, 10 ∷ [])
unfolding digits
newline n = refl

-- The text that the kernel gives for an alarm, its digits and a newline, is read as the alarm, below
-- 2 ^ 63.
pub wake_parse-decimal : (n : ℕ) → n < 2 ^ 63 → wake_parse (decimal n ++ 10 ∷ []) ≡ ok n
unfolding decimal
wake_parse-decimal n h =
    let text = decimal_fuel-append (suc n) n [] (10 ∷ []) in
    let (c, cs, d, starts) = decimal_fuel-digit (suc n) n (10 ∷ []) (omega arith) in
    let value = digits-decimal_fuel (suc n) n (10 ∷ []) (omega arith) in
    rw (text, starts) (parse_digits c n cs d (ap (digits 0) (sym starts) ∙ value ∙ newline n) h)
