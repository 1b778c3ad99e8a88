-- ===== src/Prelude/Scan/Laws.antt =====
-- Printed numbers are read back, with any text behind them that does not start with a digit.
use ugreen_nas_hardware.Prelude.{
  ℕ, zero, suc, ◌+◌, ◌/◌, ◌%◌, ◌<◌, ◌≡◌, refl, arith, true, Bool-cases, inl, inr, ◌∷◌, ◌++◌, ltb,
  Bytes,
}
use ugreen_nas_hardware.Prelude.Decimal.{decimal_fuel}
use ugreen_nas_hardware.Prelude.Scan.{digits, is_digit, skip_spaces}

pub digits-decimal_fuel :
    (f n : ℕ) (rest : Bytes) → n < f → digits 0 (decimal_fuel f n rest) ≡ digits n rest
unfolding digits decimal_fuel
digits-decimal_fuel zero n rest h = absurd (omega arith)
digits-decimal_fuel (suc f) n rest h = elim (Bool-cases (ltb n 10)) [
  | inl small ↦ rw small (ground (arith, small))
  | inr large ↦
      rw large (ground (arith, large, digits-decimal_fuel f (n / 10) ((n % 10 + b'0') ∷ rest)))
]

digit-is_digit : (n : ℕ) → n < 10 → is_digit (n + b'0') ≡ true
unfolding is_digit
digit-is_digit n h = ground arith

-- A number starts with a digit.
pub decimal_fuel-digit :
    (f n : ℕ) (rest : Bytes)
    → n < f
    → (c : ℕ) × (cs : Bytes) × (is_digit c ≡ true) × (decimal_fuel f n rest ≡ c ∷ cs)
unfolding decimal_fuel
decimal_fuel-digit zero n rest h = absurd (omega arith)
decimal_fuel-digit (suc f) n rest h = elim (Bool-cases (ltb n 10)) [
  | inl small ↦ rw small (n + b'0', rest, digit-is_digit n (ground arith), refl)
  | inr large ↦ rw large (decimal_fuel-digit f (n / 10) ((n % 10 + b'0') ∷ rest) (ground arith))
]

pub decimal_fuel-append :
    (f n : ℕ) (rest more : Bytes) → decimal_fuel f n rest ++ more ≡ decimal_fuel f n (rest ++ more)
unfolding decimal_fuel
decimal_fuel-append zero n rest more = refl
decimal_fuel-append (suc f) n rest more = elim (Bool-cases (ltb n 10)) [
  | inl small ↦ rw small refl
  | inr large ↦ rw large (decimal_fuel-append f (n / 10) ((n % 10 + b'0') ∷ rest) more)
]

pub skip_spaces-digit : (c : ℕ) (cs : Bytes) → is_digit c ≡ true → skip_spaces (c ∷ cs) ≡ c ∷ cs
unfolding skip_spaces is_digit
skip_spaces-digit c cs d = ground (arith, d)
