-- ===== src/Power/Bits.antt =====
-- The policy's bits, checked at every byte.
use ugreen_nas_hardware.Prelude.{
  ℕ, zero, suc, ◌+◌, ◌-◌, ◌*◌, ◌/◌, ◌%◌, ◌^◌, ◌<◌, ◌≡◌, refl, ap, ◌∙◌, err, arith, Bool, true,
  false, Bool-cases, inl, inr, sym, if◌then◌else◌, ◌==◌, ==_iff, bit_and, bit_or, ok, Result,
}
use ugreen_nas_hardware.Power.{
  StartupPolicy, startup_unknown, startup_off, startup_on, startup_restore, policy_of_state,
  decode_policy, encode_policy,
}

-- Whether two functions agree on the numbers under a bound.
agree : (f g : ℕ → ℕ) → ℕ → Bool
agree f g zero = true
agree f g (suc last) = let before = agree f g last in if f last == g last then before else false

agree-below : (f g : ℕ → ℕ) (bound y : ℕ) → agree f g bound ≡ true → y < bound → f y ≡ g y
unfolding agree
agree-below f g zero y h below = absurd (omega arith)
agree-below f g (suc last) y h below = elim (Bool-cases (y == last)) [
  | inl here ↦
      ap f ((==_iff y last).0 here) ∙ ground (arith, h) ∙ sym (ap g ((==_iff y last).0 here))
  | inr there ↦ agree-below f g last y (ground arith) (ground arith)
]

-- An identity of byte functions, by evaluation.
byte_identity : (f g : ℕ → ℕ) (y : ℕ) → agree f g 256 ≡ true → y < 256 → f y ≡ g y
byte_identity f g y h below = agree-below f g 256 y h below

-- Bit 5 of F2 and bits 5 and 6 of F4 choose the policy; the other bits of a byte.
abbrev pub policy_bits : ℕ → ℕ → ℕ
policy_bits f2 f4 = f2 / 32 % 2 * 4 + f4 / 32 % 4

two_fields : (x y : ℕ) → x < 2 → y < 4 → bit_or (x * 4) y ≡ x * 4 + y
unfolding agree
two_fields zero y h k = agree-below (λ z. bit_or 0 z) (λ z. 0 + z) 4 y refl k
two_fields (suc zero) y h k = agree-below (λ z. bit_or 4 z) (λ z. 4 + z) 4 y refl k
two_fields (suc (suc x)) y h k = absurd (omega arith)

pub decode_policy_lem :
    (f2 f4 : ℕ) → f2 < 256 → f4 < 256 → decode_policy f2 f4 ≡ policy_of_state (policy_bits f2 f4)
unfolding decode_policy agree
decode_policy_lem f2 f4 h k =
    let high : bit_and (f2 / 2 ^ 3) 0x4 ≡ f2 / 32 % 2 * 4 =
      byte_identity (λ y. bit_and (y / 2 ^ 3) 0x4) (λ y. y / 32 % 2 * 4) f2 refl h in
    let low : bit_and (f4 / 2 ^ 5) 0x3 ≡ f4 / 32 % 4 =
      byte_identity (λ y. bit_and (y / 2 ^ 5) 0x3) (λ y. y / 32 % 4) f4 refl k in
    rw (high, low, two_fields (f2 / 32 % 2) (f4 / 32 % 4) (omega arith) (omega arith))

-- The new bytes hold the policy and keep every bit that does not belong to it.
pub record IsEncoded (policy : StartupPolicy) (f2 f4 g2 g4 : ℕ) : Type 0 where
  pub decoded : decode_policy g2 g4 ≡ policy
  pub f2_byte : g2 < 256
  pub f4_byte : g4 < 256
  pub f2_high : g2 / 64 ≡ f2 / 64
  pub f2_low : g2 % 32 ≡ f2 % 32
  pub f4_high : g4 / 128 ≡ f4 / 128
  pub f4_low : g4 % 32 ≡ f4 % 32

module _ (y : ℕ) (h : y < 256) where
  clear_bit5 : bit_and y 0xdf ≡ y - y / 32 % 2 * 32
  unfolding agree
  clear_bit5 = byte_identity (λ z. bit_and z 0xdf) (λ z. z - z / 32 % 2 * 32) y refl h

  set_bit5 : bit_or y 0x20 ≡ y - y / 32 % 2 * 32 + 32
  unfolding agree
  set_bit5 = byte_identity (λ z. bit_or z 0x20) (λ z. z - z / 32 % 2 * 32 + 32) y refl h

  set_bit5_only : bit_and (bit_or y 0x20) 0xbf ≡ y - y / 32 % 4 * 32 + 32
  unfolding agree
  set_bit5_only =
      byte_identity (λ z. bit_and (bit_or z 0x20) 0xbf) (λ z. z - z / 32 % 4 * 32 + 32) y refl h

  set_bits56 : bit_or y 0x60 ≡ y - y / 32 % 4 * 32 + 96
  unfolding agree
  set_bits56 = byte_identity (λ z. bit_or z 0x60) (λ z. z - z / 32 % 4 * 32 + 96) y refl h

encoded :
    (policy : StartupPolicy) (f2 f4 g2 g4 state : ℕ)
    → policy_of_state state ≡ policy
    → policy_bits g2 g4 ≡ state
    → g2 < 256
    → g4 < 256
    → (g2 / 64 ≡ f2 / 64) × (g2 % 32 ≡ f2 % 32) × (g4 / 128 ≡ f4 / 128) × (g4 % 32 ≡ f4 % 32)
    → IsEncoded policy f2 f4 g2 g4
encoded policy f2 f4 g2 g4 state p e a b (x, y, z, w) = record {
  decoded = decode_policy_lem g2 g4 a b ∙ ap policy_of_state e ∙ p;
  f2_byte = a;
  f4_byte = b;
  f2_high = x;
  f2_low = y;
  f4_high = z;
  f4_low = w;
}

abbrev pub EncodesTo : StartupPolicy → ℕ → ℕ → Result (ℕ × ℕ) → Type 0
EncodesTo policy f2 f4 (ok (g2, g4)) = IsEncoded policy f2 f4 g2 g4
EncodesTo policy f2 f4 (err e) = policy ≡ startup_unknown

-- Each of the three policies has new register values that decode to it, and in which every other
-- bit is as before; only the unknown policy has none.
pub encode_policy-EncodesTo :
    (policy : StartupPolicy) (f2 f4 : ℕ)
    → f2 < 256
    → f4 < 256
    → EncodesTo policy f2 f4 (encode_policy policy f2 f4)
unfolding encode_policy
encode_policy-EncodesTo startup_unknown f2 f4 h k = refl
encode_policy-EncodesTo startup_on f2 f4 h k =
    rw (clear_bit5 f2 h, set_bit5_only f4 k)
      (encoded startup_on f2 f4 _ _ 1 refl (omega arith) (omega arith) (omega arith) (omega arith))
encode_policy-EncodesTo startup_off f2 f4 h k =
    rw (clear_bit5 f2 h, set_bits56 f4 k)
      (encoded startup_off f2 f4 _ _ 3 refl (omega arith) (omega arith) (omega arith) (omega arith))
encode_policy-EncodesTo startup_restore f2 f4 h k =
    rw (set_bit5 f2 h, set_bits56 f4 k)
      (encoded startup_restore f2 f4 _ _ 7 refl (omega arith) (omega arith) (omega arith)
        (omega arith))
