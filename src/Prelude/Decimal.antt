-- ===== src/Prelude/Decimal.antt =====
-- Unsigned decimal text, as `%u` prints it.
use ugreen_nas_hardware.Prelude.Text.{Bytes}
use Prim.Native.Nat.{ℕ, zero, suc, ◌+◌, ◌/◌, ◌%◌}
use mathlib.Core.List.{[], ◌∷◌}
use ugreen_nas_hardware.Prelude.Tests.{ltb, if◌then◌else◌}

-- The digits, with one unit of fuel for each; `suc n` units are enough for `n`.
unfoldable pub decimal_fuel : ℕ → ℕ → Bytes → Bytes
decimal_fuel zero n rest = rest
decimal_fuel (suc f) n rest =
    let more = decimal_fuel f (n / 10) ((n % 10 + b'0') ∷ rest) in
    if ltb n 10 then (n + b'0') ∷ rest else more

unfoldable pub decimal : ℕ → Bytes
unfolding decimal_fuel
decimal n = decimal_fuel (suc n) n []
