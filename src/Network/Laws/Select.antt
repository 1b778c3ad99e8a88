-- ===== src/Network/Laws/Select.antt =====
-- Which interfaces the Wake-on-LAN policy works on.
use ugreen_nas_hardware.Prelude.{
  ℕ, ◌≡◌, ◌⊎◌, inl, inr, refl, subst, ◌∙◌, ap, Bool, true, false, ◌==◌, ◌||◌, ltb, List, [], Option,
  map, All, length, if◌then◌else◌, Bytes, Result, ok, err, ◌>>=◌, ==_iff, sym, einval, enodev,
  e2big,
}
use mathlib.Core.List.{Permᴰ}
use ugreen_nas_hardware.Prelude.Written.{bind-ok}
use ugreen_nas_hardware.Network.Pci.{
  WolCalls, RuntimeInterface, sorted, collect, discover_renamed_interfaces, present_and_physical,
  max_runtime_interfaces,
}
use ugreen_nas_hardware.Network.Laws.Candidates.{
  IsFound, length-sorted, sorted-All, names-All, length-names, value_of, candidates, candidates-All,
  collect-candidates, sorted-Perm,
}
use ugreen_nas_hardware.Network.{
  validate_interfaces, select_valid, select_interfaces, open_interfaces, count_of,
}

abbrev names_of : List RuntimeInterface → List Bytes
names_of cs = map (λ (c : RuntimeInterface). c.name) cs

-- What discovery gives: the names of all candidates of the directory in the order of the sort, which
-- has each candidate as often as the directory, and their number is the expected one.
pub record AreFound (calls : WolCalls) (count : ℕ) (names : List Bytes) : Type 0 where
  pub entries : List Bytes
  pub listed : calls.entries ≡ ok entries
  pub expected : length (candidates calls entries) ≡ count
  pub selected : names ≡ names_of (sorted (candidates calls entries))
  pub complete : Permᴰ (sorted (candidates calls entries)) (candidates calls entries)
  pub number : length names ≡ count
  pub found : All (IsFound calls) names

counted :
    (calls : WolCalls) (count : ℕ) (es : List Bytes) (cs : List RuntimeInterface)
    (names : List Bytes) (test : Bool)
    → calls.entries ≡ ok es
    → cs ≡ candidates calls es
    → (length cs == count) ≡ test
    → (if test then ok (names_of (sorted cs)) else err enodev) ≡ ok names
    → AreFound calls count names
counted calls count es cs names false listed all t e = absurd (cc)
counted calls count es cs names true listed all t e =
    let named : names_of (sorted cs) ≡ names = ap (value_of []) e in
    let number : length cs ≡ count = (==_iff (length cs) count).0 t in
    record {
      entries = es;
      listed = listed;
      expected = ap length (sym all) ∙ number;
      selected = sym named ∙ ap (λ l. names_of (sorted l)) all;
      complete = sorted-Perm (candidates calls es);
      number = ap length (sym named) ∙ length-names (sorted cs) ∙ length-sorted cs ∙ number;
      found = subst (All (IsFound calls)) (ap (λ l. names_of (sorted l)) (sym all) ∙ named) (
          names-All calls (sorted (candidates calls es))
            (sorted-All calls (candidates calls es) (candidates-All calls es)));
    }

discover-AreFound :
    (calls : WolCalls) (count : ℕ) (names : List Bytes)
    → discover_renamed_interfaces calls count ≡ ok names
    → AreFound calls count names
unfolding discover_renamed_interfaces
discover-AreFound calls count names e =
    let (es, listed, next) = bind-ok calls.entries _ names e in
    let (cs, collected, last) = bind-ok (collect calls max_runtime_interfaces es) _ names next in
    counted calls count es cs names (length cs == count) listed
      (collect-candidates calls max_runtime_interfaces es cs collected) refl last

-- The names of the firmware, or the discovered ones.
abbrev pub IsSelection : WolCalls → Option (List (Option Bytes)) → ℕ → List Bytes → Type 0
IsSelection calls interfaces count names =
    ((validate_interfaces interfaces ≡ ok names) × (present_and_physical calls names ≡ true))
    ⊎ AreFound calls count names

select_valid-IsSelection :
    (calls : WolCalls) (interfaces : Option (List (Option Bytes))) (count : ℕ)
    (valid names : List Bytes)
    → validate_interfaces interfaces ≡ ok valid
    → select_valid calls count valid ≡ ok names
    → IsSelection calls interfaces count names
unfolding select_valid
select_valid-IsSelection calls interfaces count valid names v e =
    by_tests ((count == 0) || ltb max_runtime_interfaces count) (present_and_physical calls valid)
      refl e
  where
    by_tests :
        (bad physical : Bool)
        → present_and_physical calls valid ≡ physical
        → (if bad
            then err einval
            else if physical
            then ok valid
            else discover_renamed_interfaces calls count)
          ≡ ok names
        → IsSelection calls interfaces count names
    by_tests true physical p e = absurd (cc)
    by_tests false true p e =
        let same = ap (value_of []) e in
        inl (
          v ∙ ap (λ (l : List Bytes). ok l) same,
          subst (λ (l : List Bytes). present_and_physical calls l ≡ true) same p,
        )
    by_tests false false p e = inr (discover-AreFound calls count names e)

-- The interfaces that a policy is read from or set on: either the names of the firmware, all of them
-- valid, present and physical PCI Ethernet interfaces, or the names of all physical PCI Ethernet
-- interfaces with a slot that the directory has, each once for its entry, where their number is
-- exactly the one that the model is said to have.
pub open_interfaces-IsSelection :
    (calls : WolCalls) (interfaces : Option (List (Option Bytes))) (count : ℕ) (names : List Bytes)
    → open_interfaces calls interfaces count ≡ ok names
    → IsSelection calls interfaces count names
unfolding open_interfaces select_interfaces
open_interfaces-IsSelection calls interfaces count names e =
    by_limits (ltb max_runtime_interfaces (count_of interfaces) || ltb max_runtime_interfaces count)
      (validate_interfaces interfaces) refl calls.socket e
  where
    after_socket :
        (selected : Result (List Bytes)) (socket : Result (Unit {0}))
        → (selected >>= λ valid. socket >>= λ _. ok valid) ≡ ok names
        → selected ≡ ok names
    after_socket (err code) socket e = absurd (cc)
    after_socket (ok valid) (err code) e = absurd (cc)
    after_socket (ok valid) (ok _) e = e

    by_limits :
        (bad : Bool) (validated : Result (List Bytes))
        → validate_interfaces interfaces ≡ validated
        → (socket : Result (Unit {0}))
        → (if bad
            then err e2big
            else ((validated >>= λ valid. select_valid calls count valid) >>= λ valid.
                socket >>= λ _. ok valid))
          ≡ ok names
        → IsSelection calls interfaces count names
    by_limits true validated v socket e = absurd (cc)
    by_limits false (err code) v socket e = absurd (cc)
    by_limits false (ok valid) v socket e =
        select_valid-IsSelection calls interfaces count valid names v
          (after_socket (select_valid calls count valid) socket e)
