-- ===== src/Prelude/Written.antt =====
-- What a chain of steps has logged when it ends: all that was planned, or a beginning of it.
use mathlib.Core.Path.{◌≡◌, refl, sym, ap, ◌∙◌}
use mathlib.Core.List.{List, [], ◌++◌, append-nil, append_assoc}
use mathlib.Core.Bool.{Bool, true, false}
use ugreen_nas_hardware.Prelude.Tests.{if◌then◌else◌}
use ugreen_nas_hardware.Prelude.Errors.{Result, ok, err, ◌>>=◌, Errno, and_then}

-- A success has logged all of `planned` after `before`, a failure a beginning of it.
unfoldable pub Wrote : {S W A : Type 0} → (S → List W) → List W → List W → Result A × S → Type 0
Wrote {W = W} log before planned (err e, s) =
    (sent rest : List W) × (planned ≡ sent ++ rest) × (log s ≡ before ++ sent)
Wrote log before planned (ok _, s) = log s ≡ before ++ planned

-- The step before a success was a success.
pub and_then-ok :
    {S A B : Type 0} (r : Result A × S) (next : A → S → Result B × S) (b : B)
    → (and_then r next).0 ≡ ok b
    → (a : A) × (s : S) × (and_then r next ≡ next a s) × (r ≡ (ok a, s))
and_then-ok (err e, s) next b h = cc
and_then-ok (ok a, s) next b h = (a, s, refl, refl)

pub bind-ok :
    {A B : Type 0} (r : Result A) (next : A → Result B) (b : B)
    → (r >>= next) ≡ ok b
    → (a : A) × (r ≡ ok a) × (next a ≡ ok b)
bind-ok (ok a) next b h = (a, refl, h)
bind-ok (err e) next b h = cc

-- A test that does not refuse.
pub if-ok :
    {A : Type 0} (test : Bool) (e : Errno) (r : Result A) (a : A)
    → (if test then err e else r) ≡ ok a
    → (test ≡ false) × (r ≡ ok a)
if-ok true e r a h = cc
if-ok false e r a h = (refl, h)

pub guard-ok :
    {S A : Type 0} (test : Bool) (e : Errno) (s : S) (r : Result A × S) (a : A)
    → (if test then (err e, s) else r).0 ≡ ok a
    → (test ≡ false) × (r.0 ≡ ok a)
guard-ok true e s r a h = cc
guard-ok false e s r a h = (refl, h)

pub guard-next :
    {S A : Type 0} (test : Bool) (e : Errno) (s : S) (r : Result A × S) (a : A)
    → (if test then (err e, s) else r).0 ≡ ok a
    → (if test then (err e, s) else r) ≡ r
guard-next true e s r a h = cc
guard-next false e s r a h = refl

module _ {S W : Type 0} (log : S → List W) where
  pub Wrote-all :
      {A : Type 0} (before planned : List W) (r : Result A × S)
      → log r.1 ≡ before ++ planned
      → Wrote log before planned r
  unfolding Wrote
  Wrote-all before planned (err e, s) h = (planned, [], sym (append-nil planned), h)
  Wrote-all before planned (ok a, s) h = h

  pub Wrote-nothing :
      {A : Type 0} (before : List W) (r : Result A × S) → log r.1 ≡ before → Wrote log before [] r
  unfolding Wrote
  Wrote-nothing before r h = Wrote-all before [] r (h ∙ sym (append-nil before))

  pub Wrote-refused :
      (A : Type 0) (before planned : List W) (e : Errno) (s : S)
      → log s ≡ before
      → Wrote {A = A} log before planned (err e, s)
  unfolding Wrote
  Wrote-refused A before planned e s h = ([], planned, refl, h ∙ sym (append-nil before))

  pub Wrote-append :
      {A : Type 0} (before first second : List W) (r : Result A × S)
      → Wrote log (before ++ first) second r
      → Wrote log before (first ++ second) r
  unfolding Wrote
  Wrote-append before first second (err e, s) (sent, rest, p, h) = (
    first ++ sent,
    rest,
    ap (λ l. first ++ l) p ∙ sym (append_assoc first sent rest),
    h ∙ append_assoc before first sent,
  )
  Wrote-append before first second (ok a, s) h = h ∙ append_assoc before first second

  pub Wrote-and_then :
      {A B : Type 0} (before first second : List W) (r : Result A × S) (next : A → S → Result B × S)
      → Wrote log before first r
      → ((a : A) (s : S) → log s ≡ before ++ first → Wrote log (before ++ first) second (next a s))
      → Wrote log before (first ++ second) (and_then r next)
  unfolding Wrote
  Wrote-and_then before first second (err e, s) next (sent, rest, p, h) k =
      (sent, rest ++ second, ap (λ l. l ++ second) p ∙ append_assoc sent rest second, h)
  Wrote-and_then before first second (ok a, s) next h k =
      Wrote-append before first second (next a s) (k a s h)

  -- Steps that log nothing.
  pub keeps-and_then :
      {A B : Type 0} (before : List W) (r : Result A × S) (next : A → S → Result B × S)
      → log r.1 ≡ before
      → ((a : A) (s : S) → log s ≡ before → log (next a s).1 ≡ before)
      → log (and_then r next).1 ≡ before
  keeps-and_then before (err e, s) next h k = h
  keeps-and_then before (ok a, s) next h k = k a s h

  pub keeps-if :
      {A : Type 0} (before : List W) (test : Bool) (a b : Result A × S)
      → log a.1 ≡ before
      → log b.1 ≡ before
      → log (if test then a else b).1 ≡ before
  keeps-if before true a b h k = h
  keeps-if before false a b h k = k

  -- A step that logs, and steps after it that log nothing.
  pub Wrote-then_nothing :
      {A B : Type 0} (before planned : List W) (r : Result A × S) (next : A → S → Result B × S)
      → Wrote log before planned r
      → ((a : A) (s : S) → log s ≡ before ++ planned → log (next a s).1 ≡ before ++ planned)
      → Wrote log before planned (and_then r next)
  unfolding Wrote
  Wrote-then_nothing before planned (err e, s) next h k = h
  Wrote-then_nothing before planned (ok a, s) next h k =
      Wrote-all before planned (next a s) (k a s h)

  -- Steps that log, after a step that logs nothing.
  pub Wrote-after_nothing :
      {A B : Type 0} (before planned : List W) (r : Result A × S) (next : A → S → Result B × S)
      → log r.1 ≡ before
      → ((a : A) (s : S) → log s ≡ before → Wrote log before planned (next a s))
      → Wrote log before planned (and_then r next)
  Wrote-after_nothing before planned (err e, s) next h k = Wrote-refused _ before planned e s h
  Wrote-after_nothing before planned (ok a, s) next h k = k a s h

  pub Wrote-if :
      {A : Type 0} (before planned : List W) (test : Bool) (a b : Result A × S)
      → Wrote log before planned a
      → Wrote log before planned b
      → Wrote log before planned (if test then a else b)
  Wrote-if before planned true a b h k = h
  Wrote-if before planned false a b h k = k
