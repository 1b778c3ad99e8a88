-- ===== src/Prelude/Scan/Words.antt =====
-- Words: texts without white space or NUL, which trimming leaves alone. Printed numbers are words.
use ugreen_nas_hardware.Prelude.{
  ℕ, zero, suc, ◌+◌, ◌*◌, ◌/◌, ◌%◌, ◌^◌, ◌<◌, ◌≤◌, ◌≡◌, ◌≢◌, ◌∙◌, refl, ap, sym, leb, ◌==◌, arith,
  true, false, Bool-cases, inl, inr, [], ◌∷◌, ◌++◌, ltb, Bytes, length, All,
}
use ugreen_nas_hardware.Prelude.Decimal.{decimal, decimal_fuel}
use ugreen_nas_hardware.Prelude.Scan.{
  digits, is_digit, skip_spaces, is_space, until_nul, trim_end, strtoul, unsigned_signed, Unsigned,
}
use ugreen_nas_hardware.Prelude.Scan.Laws.{
  digits-decimal_fuel, decimal_fuel-digit, skip_spaces-digit,
}

abbrev pub IsSolid : ℕ → Type 0
IsSolid c = (is_space c ≡ false) × (c ≢ 0)

abbrev pub IsWord : Bytes → Type 0
IsWord = All IsSolid

pub IsWord-append : (s t : Bytes) → IsWord s → IsWord t → IsWord (s ++ t)
IsWord-append [] t h k = k
IsWord-append (c ∷ cs) t h k = (h.0, IsWord-append cs t h.1 k)

pub until_nul-append : (s t : Bytes) → IsWord s → until_nul (s ++ t) ≡ s ++ until_nul t
unfolding until_nul
until_nul-append [] t h = refl
until_nul-append (c ∷ cs) t h = ground (arith, until_nul-append cs t h.1)

pub skip_spaces-word : (s t : Bytes) → IsWord s → s ≢ [] → skip_spaces (s ++ t) ≡ s ++ t
unfolding skip_spaces
skip_spaces-word [] t h ne = absurd (ne refl)
skip_spaces-word (c ∷ cs) t h ne = ground arith

pub trim_end-append : (s t : Bytes) → IsWord s → trim_end t ≡ [] → trim_end (s ++ t) ≡ s
unfolding trim_end
trim_end-append [] t h e = e
trim_end-append (c ∷ cs) t h e = ground (arith, trim_end-append cs t h.1 e)

digit-IsSolid : (n : ℕ) → n < 10 → IsSolid (n + b'0')
unfolding is_space
digit-IsSolid n h = ground arith

All-decimal_fuel :
    (P : ℕ → Type 0)
    → ((d : ℕ) → d < 10 → P (d + b'0'))
    → (f n : ℕ) (rest : Bytes) → All P rest
    → All P (decimal_fuel f n rest)
unfolding decimal_fuel
All-decimal_fuel P digit zero n rest h = h
All-decimal_fuel P digit (suc f) n rest h = elim (Bool-cases (ltb n 10)) [
  | inl small ↦ rw small (digit n (ground arith), h)
  | inr large ↦ rw large (
      All-decimal_fuel P digit f (n / 10) ((n % 10 + b'0') ∷ rest)
        (digit (n % 10) (omega arith), h))
]

pub All-decimal : (P : ℕ → Type 0) → ((d : ℕ) → d < 10 → P (d + b'0')) → (n : ℕ) → All P (decimal n)
unfolding decimal
All-decimal P digit n = All-decimal_fuel P digit (suc n) n [] tt

pub decimal-IsWord : (n : ℕ) → IsWord (decimal n)
decimal-IsWord = All-decimal IsSolid digit-IsSolid

-- 10 ^ k
abbrev pow10 : ℕ → ℕ
pow10 zero = 1
pow10 (suc k) = 10 * pow10 k

length-decimal_fuel :
    (k f n : ℕ) (rest : Bytes)
    → n < pow10 (suc k)
    → length (decimal_fuel f n rest) ≤ suc k + length rest
unfolding decimal_fuel
length-decimal_fuel k zero n rest h = omega arith
length-decimal_fuel zero (suc f) n rest h = ground arith
length-decimal_fuel (suc k) (suc f) n rest h = elim (Bool-cases (ltb n 10)) [
  | inl small ↦ rw small (omega arith)
  | inr large ↦
      rw large
        (omega (arith, length-decimal_fuel k f (n / 10) ((n % 10 + b'0') ∷ rest) (omega arith)))
]

-- A number of 32 bits has at most 10 digits.
pub length-decimal : (n : ℕ) → n < 2 ^ 32 → length (decimal n) ≤ 10
unfolding decimal
length-decimal n h = omega (arith, length-decimal_fuel 9 (suc n) n [] (omega arith))

strtoul-digit :
    (c n : ℕ) (cs : Bytes)
    → is_digit c ≡ true
    → digits 0 (c ∷ cs) ≡ (n, [])
    → n < 2 ^ 32
    → unsigned_signed (c ∷ cs) (c ∷ cs) ≡ record { value = n; rest = []; out_of_range = false }
unfolding is_digit
strtoul-digit c n cs d e h = let (minus, plus) = sign_of c d in rw (minus, plus, d, e) (small n h)
  where
    sign_of : (c : ℕ) → is_digit c ≡ true → ((c == b'-') ≡ false) × ((c == b'+') ≡ false)
    sign_of c d = ground arith

    small :
        (n : ℕ)
        → n < 2 ^ 32
        → (let r : Unsigned = record { value = n; rest = []; out_of_range = leb (2 ^ 64) n } in r)
          ≡ (let r : Unsigned = record { value = n; rest = []; out_of_range = false } in r)
    small n h = ground arith

pub decimal-ne-nil : (n : ℕ) → decimal n ≢ []
unfolding decimal
decimal-ne-nil n e =
    let (c, cs, d, starts) = decimal_fuel-digit (suc n) n [] (omega arith) in cc (starts, e)

-- Reading a printed number.
pub strtoul-decimal :
    (n : ℕ)
    → n < 2 ^ 32
    → strtoul (decimal n) ≡ record { value = n; rest = []; out_of_range = false }
unfolding strtoul decimal
strtoul-decimal n h =
    let (c, cs, d, starts) = decimal_fuel-digit (suc n) n [] (omega arith) in
    let value = digits-decimal_fuel (suc n) n [] (omega arith) in
    rw (starts, skip_spaces-digit c cs d)
      (strtoul-digit c n cs d (ap (digits 0) (sym starts) ∙ value) h)
