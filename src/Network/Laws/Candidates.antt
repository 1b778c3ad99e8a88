-- ===== src/Network/Laws/Candidates.antt =====
-- The physical PCI Ethernet interfaces that a directory gives, network/wol.c: how they are collected
-- and sorted.
use ugreen_nas_hardware.Prelude.{
  ℕ, suc, ◌-◌, ◌≡◌, inl, inr, refl, ◌∙◌, ap, arith, Bool, true, false, ◌==◌, List, [], ◌∷◌, Option,
  none, some, map, All, length, if◌then◌else◌, Bytes, Result, ok, err, ◌>>=◌, Bool-cases, sym,
  e2big,
}
use mathlib.Core.List.{Permᴰ}
use mathlib.Core.List.Permᴰ
use ugreen_nas_hardware.Network.Pci.{
  WolCalls, RuntimeInterface, before_interface, insert_interface, sorted, candidate_entry, collect,
}

-- An entry that is a physical PCI Ethernet interface with a slot.
abbrev pub IsCandidate : WolCalls → RuntimeInterface → Type 0
IsCandidate calls c = (entry : Bytes) × (candidate_entry calls entry ≡ some c)

abbrev pub IsFound : WolCalls → Bytes → Type 0
IsFound calls name = (c : RuntimeInterface) × IsCandidate calls c × (c.name ≡ name)

length-insert_interface :
    (a : RuntimeInterface) (bs : List RuntimeInterface)
    → length (insert_interface a bs) ≡ suc (length bs)
unfolding insert_interface
length-insert_interface a [] = refl
length-insert_interface a (b ∷ bs) = ground (arith, length-insert_interface a bs)

pub length-sorted : (cs : List RuntimeInterface) → length (sorted cs) ≡ length cs
unfolding sorted
length-sorted [] = refl
length-sorted (c ∷ cs) = length-insert_interface c (sorted cs) ∙ ap suc (length-sorted cs)

insert_interface-All :
    (calls : WolCalls) (a : RuntimeInterface) (bs : List RuntimeInterface)
    → IsCandidate calls a
    → All (IsCandidate calls) bs
    → All (IsCandidate calls) (insert_interface a bs)
unfolding insert_interface
insert_interface-All calls a [] h hs = (h, tt)
insert_interface-All calls a (b ∷ bs) h (k, ks) = elim (Bool-cases (before_interface b a)) [
  | inl less ↦ rw less (k, insert_interface-All calls a bs h ks)
  | inr other ↦ rw other (h, (k, ks))
]

pub sorted-All :
    (calls : WolCalls) (cs : List RuntimeInterface)
    → All (IsCandidate calls) cs
    → All (IsCandidate calls) (sorted cs)
unfolding sorted
sorted-All calls [] h = tt
sorted-All calls (c ∷ cs) (h, hs) =
    insert_interface-All calls c (sorted cs) h (sorted-All calls cs hs)

pub names-All :
    (calls : WolCalls) (cs : List RuntimeInterface)
    → All (IsCandidate calls) cs
    → All (IsFound calls) (map (λ (c : RuntimeInterface). c.name) cs)
names-All calls [] h = tt
names-All calls (c ∷ cs) (h, hs) = ((c, h, refl), names-All calls cs hs)

pub length-names :
    (cs : List RuntimeInterface) → length (map (λ (c : RuntimeInterface). c.name) cs) ≡ length cs
length-names [] = refl
length-names (c ∷ cs) = ap suc (length-names cs)

abbrev pub value_of : {A : Type 0} → A → Result A → A
value_of other (err e) = other
value_of other (ok a) = a

-- The interfaces that the entries of a directory give, each once, in the order of the entries.
unfoldable pub candidates : WolCalls → List Bytes → List RuntimeInterface
candidates calls [] = []
candidates calls (entry ∷ entries) = elim (candidate_entry calls entry) [
  | none ↦ candidates calls entries
  | some c ↦ c ∷ candidates calls entries
]

pub candidates-All :
    (calls : WolCalls) (entries : List Bytes) → All (IsCandidate calls) (candidates calls entries)
unfolding candidates
candidates-All calls [] = tt
candidates-All calls (entry ∷ entries) =
    by_entry (candidate_entry calls entry) refl (candidates-All calls entries)
  where
    by_entry :
        (candidate : Option RuntimeInterface)
        → candidate_entry calls entry ≡ candidate
        → All (IsCandidate calls) (candidates calls entries)
        → All (IsCandidate calls) (elim candidate [
          | none ↦ candidates calls entries
          | some c ↦ c ∷ candidates calls entries
        ])
    by_entry none h rest = rest
    by_entry (some c) h rest = ((entry, h), rest)

-- The rest of a collection, after one candidate.
joined :
    (c : RuntimeInterface) (full : Bool) (rest : Result (List RuntimeInterface))
    (found all : List RuntimeInterface)
    → ((more : List RuntimeInterface) → rest ≡ ok more → more ≡ all)
    → (if full then err e2big else (rest >>= λ more. ok (c ∷ more))) ≡ ok found
    → found ≡ c ∷ all
joined c true rest found all k e = absurd (cc)
joined c false (err code) found all k e = absurd (cc)
joined c false (ok more) found all k e = sym (ap (value_of []) e) ∙ ap (λ l. c ∷ l) (k more refl)

pub collect-candidates :
    (calls : WolCalls) (room : ℕ) (entries : List Bytes) (found : List RuntimeInterface)
    → collect calls room entries ≡ ok found
    → found ≡ candidates calls entries
unfolding collect candidates
collect-candidates calls room [] found e = sym (ap (value_of []) e)
collect-candidates calls room (entry ∷ entries) found e =
    by_entry (candidate_entry calls entry) (collect-candidates calls room entries found)
      (collect-candidates calls (room - 1) entries) e
  where
    by_entry :
        (candidate : Option RuntimeInterface)
        → (collect calls room entries ≡ ok found → found ≡ candidates calls entries)
        → ((more : List RuntimeInterface)
            → collect calls (room - 1) entries ≡ ok more
            → more ≡ candidates calls entries)
        → elim candidate [
          | none ↦ collect calls room entries
          | some c ↦
              let rest = collect calls (room - 1) entries in
              if room == 0 then err e2big else (rest >>= λ more. ok (c ∷ more))
        ]
          ≡ ok found
        → found ≡ elim candidate [
          | none ↦ candidates calls entries
          | some c ↦ c ∷ candidates calls entries
        ]
    by_entry none same fewer e = same e
    by_entry (some c) same fewer e =
        joined c (room == 0) (collect calls (room - 1) entries) found (candidates calls entries)
          fewer e

insert_interface-Perm :
    (a : RuntimeInterface) (bs : List RuntimeInterface) → Permᴰ (insert_interface a bs) (a ∷ bs)
unfolding insert_interface
insert_interface-Perm a [] = Permᴰ.cons refl Permᴰ.nil
insert_interface-Perm a (b ∷ bs) = by_test (before_interface b a) (insert_interface-Perm a bs)
  where
    by_test :
        (test : Bool)
        → Permᴰ (insert_interface a bs) (a ∷ bs)
        → Permᴰ (if test then b ∷ insert_interface a bs else a ∷ b ∷ bs) (a ∷ b ∷ bs)
    by_test true h = Permᴰ.trans (Permᴰ.cons refl h) (Permᴰ.swap refl refl)
    by_test false h = Permᴰ.refl _

pub sorted-Perm : (cs : List RuntimeInterface) → Permᴰ (sorted cs) cs
unfolding sorted
sorted-Perm [] = Permᴰ.nil
sorted-Perm (c ∷ cs) =
    Permᴰ.trans (insert_interface-Perm c (sorted cs)) (Permᴰ.cons refl (sorted-Perm cs))
