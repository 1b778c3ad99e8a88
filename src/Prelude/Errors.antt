-- ===== src/Prelude/Errors.antt =====
-- The `int` results of the C functions: 0 is `ok`, a negative errno is `err`. The text that a
-- function writes to its `error` buffer beside the code is left out.
use Prim.Native.Nat.{ℕ}
use mathlib.Core.Path.{◌≡◌, refl}
use mathlib.Core.Logic.{◌⊎◌, inl, inr}

pub data Errno : Type 0 where
  einval erange enodata eio eperm ebusy enodev enotsup ebadmsg enametoolong eoverflow eexist e2big
        eopnotsupp euclean estale :
      Errno
  -- The errno that a system call left.
  from_kernel : ℕ → Errno

pub data Result {ℓ} (X : Type ℓ) : Type ℓ where
  ok : X → Result X
  err : Errno → Result X

infixl 5 ◌>>=◌
-- `if (result != 0) return result;`
abbrev pub ◌>>=◌ {ℓ κ} : {X : Type ℓ} {Y : Type κ} → Result X → (X → Result Y) → Result Y
err code >>= next = err code
ok x >>= next = next x

pub Result-cases : (r : Result (Unit {0})) → (r ≡ ok tt) ⊎ ((code : Errno) × (r ≡ err code))
Result-cases (ok _) = inl refl
Result-cases (err code) = inr (code, refl)

-- The same for a result with the state after it.
abbrev pub and_then : {S A B : Type 0} → Result A × S → (A → S → Result B × S) → Result B × S
and_then (err e, s) next = (err e, s)
and_then (ok a, s) next = next a s

-- PATH_MAX
abbrev pub path_max : ℕ
path_max = 4096
