-- ===== src/Led/Profiles/Laws/Position.antt =====
-- On the order of the profiles in models/led_profiles.c.
use ugreen_nas_hardware.Prelude.{
  ℕ, zero, suc, ◌≡◌, refl, sym, ◌∙◌, subst, inl, inr, Bool, true, false, not, Bool-cases, ◌&&◌,
  List, [], ◌∷◌, Option, none, some, get_elem?, Bytes, bytes_eq,
}
use ugreen_nas_hardware.Prelude.Text.{bytes_eq_iff}
use ugreen_nas_hardware.Led.Types.{LedProfile}
use ugreen_nas_hardware.Led.Profiles.Laws.{take_first, skip_first}
use ugreen_nas_hardware.Prelude.Every.{and-both}
use ugreen_nas_hardware.Led.Profiles.{same_text, same_version, find_profile, led_profile_find}
use ugreen_nas_hardware.Led.Profiles.Table.{led_profiles}

abbrev same_name : Option Bytes → Option Bytes → Bool
same_name (some a) (some b) = bytes_eq a b
same_name _ _ = false

abbrev same_revision : Option Bytes → Option Bytes → Bool
same_revision (some a) (some b) = bytes_eq a b
same_revision _ _ = true

abbrev is_meant : Bytes → Option Bytes → LedProfile → Bool
is_meant name version p = same_text name p.product_name && same_version version p.product_version

-- A name and a revision that both profiles have.
unfoldable clash : LedProfile → LedProfile → Bool
clash p q =
    same_name p.product_name q.product_name && same_revision p.product_version q.product_version

unfoldable no_clash : LedProfile → List LedProfile → Bool
unfolding clash
no_clash p [] = true
no_clash p (q ∷ qs) = not (clash p q) && no_clash p qs

unfoldable all_apart : List LedProfile → Bool
unfolding no_clash
all_apart [] = true
all_apart (p ∷ ps) = no_clash p ps && all_apart ps

all_apart-profiles : all_apart led_profiles ≡ true
unfolding all_apart bytes_eq
all_apart-profiles = refl

both-bytes :
    (name a b : Bytes) → bytes_eq name a ≡ true → bytes_eq name b ≡ true → bytes_eq a b ≡ true
both-bytes name a b h k =
    let first = (bytes_eq_iff name a).0 h in
    let second = (bytes_eq_iff name b).0 k in (bytes_eq_iff a b).1 (sym first ∙ second)

both-names :
    (name : Bytes) (a b : Option Bytes)
    → same_text name a ≡ true
    → same_text name b ≡ true
    → same_name a b ≡ true
both-names name none b h k = cc
both-names name (some a) none h k = cc
both-names name (some a) (some b) h k = both-bytes name a b h k

both-revisions :
    (version a b : Option Bytes)
    → same_version version a ≡ true
    → same_version version b ≡ true
    → same_revision a b ≡ true
both-revisions version none none h k = refl
both-revisions version none (some b) h k = refl
both-revisions version (some a) none h k = refl
both-revisions none (some a) (some b) h k = cc
both-revisions (some version) (some a) (some b) h k = both-bytes version a b h k

matches-clash :
    (name : Bytes) (version : Option Bytes) (p q : LedProfile)
    → is_meant name version p ≡ true
    → is_meant name version q ≡ true
    → clash p q ≡ true
unfolding clash
matches-clash name version p q h k =
    let (n, v) =
      and-both (same_text name p.product_name) (same_version version p.product_version) h in
    let (n', v') =
      and-both (same_text name q.product_name) (same_version version q.product_version) k in
    let names_ = both-names name p.product_name q.product_name n n' in
    let revisions = both-revisions version p.product_version q.product_version v v' in cc

not-both : (b c : Bool) → b ≡ true → not b ≡ true → c ≡ false
not-both true c h k = cc
not-both false c h k = cc

-- No later profile has what an earlier one is found by.
no_clash-later :
    (name : Bytes) (version : Option Bytes) (p : LedProfile) (ps : List LedProfile) (i : ℕ)
    (q : LedProfile)
    → no_clash p ps ≡ true
    → get_elem? ps i ≡ some q
    → is_meant name version q ≡ true
    → is_meant name version p ≡ false
unfolding no_clash
no_clash-later name version p [] i q c h m = cc
no_clash-later name version p (first ∷ ps) zero q c h m =
    let same : first ≡ q = cc in
    let (apart, _) = and-both (not (clash p first)) (no_clash p ps) c in
    let here = subst (λ x. is_meant name version x ≡ true) (sym same) m in
    elim (Bool-cases (is_meant name version p)) [
      | inl met ↦ not-both (clash p first) _ (matches-clash name version p first met here) apart
      | inr unmet ↦ unmet
    ]
no_clash-later name version p (first ∷ ps) (suc i) q c h m =
    no_clash-later name version p ps i q (and-both (not (clash p first)) (no_clash p ps) c).1 h m

not-true : (b c : Bool) → b ≡ true → b ≡ false → c ≡ true
not-true true c h k = cc
not-true false c h k = cc

find_profile-position :
    (name : Bytes) (version : Option Bytes) (ps : List LedProfile) (i : ℕ) (p : LedProfile)
    → all_apart ps ≡ true
    → get_elem? ps i ≡ some p
    → is_meant name version p ≡ true
    → find_profile name version ps ≡ some p
unfolding all_apart find_profile
find_profile-position name version [] i p a h m = cc
find_profile-position name version (first ∷ ps) zero p a h m =
    let same : first ≡ p = cc in
    take_first (is_meant name version first) first p (find_profile name version ps)
      (subst (λ x. is_meant name version x ≡ true) (sym same) m) same
find_profile-position name version (first ∷ ps) (suc i) p a h m =
    let (here, later) = and-both (no_clash first ps) (all_apart ps) a in
    let unmet = no_clash-later name version first ps i p here h m in
    skip_first (is_meant name version first) first p (find_profile name version ps)
      (find_profile-position name version ps i p later h m) (λ met. not-true _ _ met unmet)

-- No profile hides another one: each profile of the table is found by every name and revision that it
-- matches, wherever it stands.
pub led_profile_find-position :
    (name : Bytes) (version : Option Bytes) (i : ℕ) (p : LedProfile)
    → get_elem? led_profiles i ≡ some p
    → is_meant name version p ≡ true
    → led_profile_find (some name) version ≡ some p
unfolding led_profile_find
led_profile_find-position name version i p h m =
    find_profile-position name version led_profiles i p all_apart-profiles h m
