-- ===== src/Led/Profiles/Laws.antt =====
-- On the lamps of the profiles in models/led_profiles.c.
pub mod Position
use ugreen_nas_hardware.Prelude.{
  ℕ, zero, suc, ◌+◌, ◌≡◌, refl, sym, ap, ◌∙◌, subst, ◌≢◌, inl, inr, arith, Bool, true, false, not,
  Bool-cases, ◌&&◌, ◌||◌, List, [], ◌∷◌, Option, none, some, get_elem?, length, ltb, leb, ◌==◌,
  ==_iff, if◌then◌else◌, Bytes, bytes_eq,
}
use ugreen_nas_hardware.Prelude.Text.{bytes_eq_iff}
use ugreen_nas_hardware.Prelude.Every.{and-both}
use ugreen_nas_hardware.Led.Types.{LedDescriptor, LedProfile}
use ugreen_nas_hardware.Led.Session.{find_led}
use ugreen_nas_hardware.Led.Session.Read.{is_missing}
use ugreen_nas_hardware.Led.Profiles.{
  same_text, same_version, find_profile, led_profile_find, max_leds, led_descriptors,
}
use ugreen_nas_hardware.Led.Profiles.Table.{led_profiles}

unfoldable distinct_ids : List LedDescriptor → Bool
unfolding find_led
distinct_ids [] = true
distinct_ids (led ∷ leds) = is_missing (find_led led.id leds) && distinct_ids leds

-- The bays that the lamps belong to, in the order of the lamps.
unfoldable pub bays_of : List LedDescriptor → List ℕ
bays_of [] = []
bays_of (led ∷ leds) = let rest = bays_of leds in if led.bay == 0 then rest else led.bay ∷ rest

-- The next `count` numbers from `first` on.
unfoldable pub count_up : ℕ → ℕ → List ℕ
count_up first zero = []
count_up first (suc count) = first ∷ count_up (suc first) count

unfoldable sound : LedProfile → Bool
unfolding distinct_ids bays_of count_up bytes_eq
sound p =
    leb (length p.leds) max_leds
    && (distinct_ids p.leds && (bytes_eq (bays_of p.leds) (count_up 1 p.disk_count)))

unfoldable every_sound : List LedProfile → Bool
unfolding sound
every_sound [] = true
every_sound (p ∷ ps) = sound p && every_sound ps

every_sound-profiles : every_sound led_profiles ≡ true
unfolding every_sound
every_sound-profiles = refl

-- A test that fails on all that is found later: what is found later, is found.
pub skip_first :
    {A : Type 0} (test : Bool) (first x : A) (later : Option A)
    → later ≡ some x
    → (test ≡ true → is_missing later ≡ true)
    → (if test then some first else later) ≡ some x
skip_first false first x later h k = h
skip_first true first x none h k = cc
skip_first true first x (some y) h k = let no : true ≡ false = sym (k refl) in cc

pub take_first :
    {A : Type 0} (test : Bool) (first x : A) (later : Option A)
    → test ≡ true
    → first ≡ x
    → (if test then some first else later) ≡ some x
take_first true first x later h e = ap some e
take_first false first x later h e = cc

find_led-distinct :
    (leds : List LedDescriptor) (i : ℕ) (led : LedDescriptor)
    → distinct_ids leds ≡ true
    → get_elem? leds i ≡ some led
    → find_led led.id leds ≡ some led
unfolding distinct_ids find_led
find_led-distinct [] i led d h = cc
find_led-distinct (first ∷ leds) zero led d h =
    let same : first ≡ led = cc in
    take_first (first.id == led.id) first led (find_led led.id leds)
      ((==_iff first.id led.id).1 (ap (λ l. l.id) same)) same
find_led-distinct (first ∷ leds) (suc i) led d h =
    let (missing, rest) = and-both (is_missing (find_led first.id leds)) (distinct_ids leds) d in
    skip_first (first.id == led.id) first led (find_led led.id leds)
      (find_led-distinct leds i led rest h)
      (λ e. subst (λ n. is_missing (find_led n leds) ≡ true) ((==_iff first.id led.id).0 e) missing)

find_profile-sound :
    (name : Bytes) (version : Option Bytes) (ps : List LedProfile) (p : LedProfile)
    → every_sound ps ≡ true
    → find_profile name version ps ≡ some p
    → sound p ≡ true
unfolding every_sound find_profile
find_profile-sound name version [] p e h = cc
find_profile-sound name version (first ∷ ps) p e h =
    let (here, later) = and-both (sound first) (every_sound ps) e in
    picked (same_text name first.product_name && same_version version first.product_version) first p
      (find_profile name version ps) here h (λ k. find_profile-sound name version ps p later k)
  where
    picked :
        (test : Bool) (q r : LedProfile) (rest : Option LedProfile)
        → sound q ≡ true
        → (if test then some q else rest) ≡ some r
        → (rest ≡ some r → sound r ≡ true)
        → sound r ≡ true
    picked true q r rest s h k = let same : q ≡ r = cc in subst (λ x. sound x ≡ true) same s
    picked false q r rest s h k = k h

-- The lamps of a profile that is found: all of them are passed on, the number of each one leads back
-- to it, and the lamps of disk bays are those of the bays 1, 2 and so on up to the number of disks, in
-- this order, one for each bay.
pub led_profile_find_lem :
    (name version : Option Bytes) (p : LedProfile) (i : ℕ) (led : LedDescriptor)
    → led_profile_find name version ≡ some p
    → get_elem? (led_descriptors (some p)) i ≡ some led
    → (led_descriptors (some p) ≡ p.leds)
      × (find_led led.id p.leds ≡ some led)
      × (bays_of p.leds ≡ count_up 1 p.disk_count)
unfolding led_profile_find led_descriptors sound
led_profile_find_lem none version p i led h k = cc
led_profile_find_lem (some name) version p i led h k =
    let checked = find_profile-sound name version led_profiles p every_sound-profiles h in
    let (few, rest) =
      and-both (leb (length p.leds) max_leds)
        (distinct_ids p.leds && (bytes_eq (bays_of p.leds) (count_up 1 p.disk_count))) checked in
    let (distinct, bays) =
      and-both (distinct_ids p.leds) (bytes_eq (bays_of p.leds) (count_up 1 p.disk_count)) rest in
    let whole : (if ltb max_leds (length p.leds) then [] else p.leds) ≡ p.leds = ground arith in
    (
      whole,
      find_led-distinct p.leds i led distinct (subst (λ l. get_elem? l i ≡ some led) whole k),
      (bytes_eq_iff (bays_of p.leds) (count_up 1 p.disk_count)).0 bays,
    )
