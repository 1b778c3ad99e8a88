-- ===== src/Prelude/Every.antt =====
-- A test on every element of a list, and on one of them.
use Prim.Native.Nat.{ℕ, zero, suc}
use mathlib.Core.Path.{◌≡◌, refl, sym, subst}
use mathlib.Core.Bool.{Bool, true, false, ◌&&◌}
use mathlib.Core.List.{List, [], ◌∷◌, ◌++◌}
use mathlib.Core.Option.{some}
use ugreen_nas_hardware.Prelude.Tests.{if◌then◌else◌}
use ugreen_nas_hardware.Prelude.Lists.{All, get_elem?}

pub and-both : (a b : Bool) → (a && b) ≡ true → (a ≡ true) × (b ≡ true)
and-both true b h = (refl, h)
and-both false b h = cc

unfoldable pub every : {A : Type 0} → (A → Bool) → List A → Bool
every test [] = true
every test (x ∷ xs) = test x && every test xs

unfoldable pub any : {A : Type 0} → (A → Bool) → List A → Bool
any test [] = false
any test (x ∷ xs) = let later = any test xs in if test x then true else later

module _ {A : Type 0} (test : A → Bool) where
  pub every-at :
      (xs : List A) (i : ℕ) (x : A) → every test xs ≡ true → get_elem? xs i ≡ some x → test x ≡ true
  unfolding every
  every-at [] i x e h = cc
  every-at (y ∷ ys) zero x e h =
      let same : y ≡ x = cc in
      subst (λ z. test z ≡ true) same (and-both (test y) (every test ys) e).0
  every-at (y ∷ ys) (suc i) x e h = every-at ys i x (and-both (test y) (every test ys) e).1 h

  -- What is picked at the first element, or found later.
  any-first :
      (b : Bool) (y : A) (ys : List A)
      → b ≡ test y
      → (if b then true else any test ys) ≡ true
      → (any test ys ≡ true → (i : ℕ) × (x : A) × (get_elem? ys i ≡ some x) × (test x ≡ true))
      → (i : ℕ) × (x : A) × (get_elem? (y ∷ ys) i ≡ some x) × (test x ≡ true)
  any-first true y ys e h k = (0, y, refl, sym e)
  any-first false y ys e h k = let (i, x, at, met) = k h in (suc i, x, at, met)

  pub any-at :
      (xs : List A)
      → any test xs ≡ true
      → (i : ℕ) × (x : A) × (get_elem? xs i ≡ some x) × (test x ≡ true)
  unfolding any
  any-at [] h = cc
  any-at (y ∷ ys) h = any-first (test y) y ys refl h (λ k. any-at ys k)

pub All-snoc :
    {A : Type 0} (P : A → Type 0) (xs : List A) (x : A) → All P xs → P x → All P (xs ++ x ∷ [])
All-snoc P [] x h p = (p, tt)
All-snoc P (y ∷ ys) x (q, h) p = (q, All-snoc P ys x h p)
