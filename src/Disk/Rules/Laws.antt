-- ===== src/Disk/Rules/Laws.antt =====
-- The rules of the firmware and the lamps of the same models.
use ugreen_nas_hardware.Prelude.{
  ℕ, ◌≡◌, refl, sym, ◌∙◌, subst, Bool, true, false, not, ◌&&◌, ◌||◌, List, [], ◌∷◌, Option, none,
  some, get_elem?, ◌==◌, ==_iff, if◌then◌else◌, Bytes, bytes_eq, str_is, take, codes,
}
use ugreen_nas_hardware.Prelude.Every.{and-both, every, every-at, any, any-at}
use ugreen_nas_hardware.Prelude.Text.{bytes_eq_iff}
use ugreen_nas_hardware.Prelude.Decimal.{decimal}
use ugreen_nas_hardware.Led.Types.{LedDescriptor, LedProfile}
use ugreen_nas_hardware.Led.Profiles.{same_text, same_version, find_profile, led_profile_find}
use ugreen_nas_hardware.Led.Profiles.Table.{led_profiles}
use ugreen_nas_hardware.Disk.Types.{Disk}
use ugreen_nas_hardware.Disk.Firmware.Types.{FirmwareRule, FirmwareLayout}
use ugreen_nas_hardware.Disk.Firmware.{layouts, find_layout, disk_firmware_layout}
use ugreen_nas_hardware.Disk.Rules.{
  firmware_slot_has_led, rule_number, led_name, place_rule, mapping_source_of, apply_firmware_rule,
}

-- A lamp of the slot.
unfoldable is_lamp : ℕ → LedDescriptor → Bool
unfolding bytes_eq decimal
is_lamp n led = bytes_eq led.name (led_name n) && (led.bay == n)

unfoldable has_lamp : List LedDescriptor → Option ℕ → Bool
unfolding is_lamp any
has_lamp leds none = false
has_lamp leds (some n) = not (n == 0) && any (is_lamp n) leds

unfoldable lit : Bytes → LedProfile → FirmwareRule → Bool
unfolding firmware_slot_has_led rule_number has_lamp
lit model p rule = not (firmware_slot_has_led model rule) || has_lamp p.leds (rule_number rule)

unfoldable layout_lit : LedProfile → FirmwareLayout → Bool
unfolding lit every bytes_eq
layout_lit p layout =
    not (same_text layout.model p.product_name) || every (lit layout.model p) layout.rules

unfoldable profile_lit : LedProfile → Bool
unfolding layout_lit every
profile_lit p = every (layout_lit p) layouts

profile_lit-every : every profile_lit led_profiles ≡ true
unfolding profile_lit every
profile_lit-every = refl

-- What is picked by a test, or found later.
picked :
    {A : Type 0} (P : A → Type 0) (test : Bool) (first r : A) (later : Option A)
    → (if test then some first else later) ≡ some r
    → (test ≡ true → P first)
    → (later ≡ some r → P r)
    → P r
picked P true first r later h k m = let same : first ≡ r = cc in subst P same (k refl)
picked P false first r later h k m = m h

find_profile-every :
    (check : LedProfile → Bool) (name : Bytes) (version : Option Bytes) (ps : List LedProfile)
    (p : LedProfile)
    → every check ps ≡ true
    → find_profile name version ps ≡ some p
    → (check p ≡ true) × (same_text name p.product_name ≡ true)
unfolding every find_profile
find_profile-every check name version [] p e h = cc
find_profile-every check name version (q ∷ qs) p e h =
    let (here, later) = and-both (check q) (every check qs) e in
    picked (λ r. (check r ≡ true) × (same_text name r.product_name ≡ true))
      (same_text name q.product_name && same_version version q.product_version) q p
      (find_profile name version qs) h
      (λ met. (
        here,
        (and-both (same_text name q.product_name) (same_version version q.product_version) met).0,
      ))
      (λ k. find_profile-every check name version qs p later k)

find_layout-every :
    (check : FirmwareLayout → Bool) (model revision : Bytes) (ls : List FirmwareLayout)
    (l : FirmwareLayout)
    → every check ls ≡ true
    → find_layout model revision ls ≡ some l
    → (check l ≡ true) × (model ≡ l.model)
unfolding every find_layout
find_layout-every check model revision [] l e h = cc
find_layout-every check model revision (q ∷ qs) l e h =
    let (here, later) = and-both (check q) (every check qs) e in
    picked (λ r. (check r ≡ true) × (model ≡ r.model))
      (bytes_eq model q.model && bytes_eq revision q.revision) q l (find_layout model revision qs) h
      (λ met. (
        here,
        (bytes_eq_iff model q.model).0
            (and-both (bytes_eq model q.model) (bytes_eq revision q.revision) met).0,
      ))
      (λ k. find_layout-every check model revision qs l later k)

left-out : (a b : Bool) → (not a || b) ≡ true → a ≡ true → b ≡ true
left-out true b h e = h
left-out false b h e = cc

rule-lit :
    (model revision : Bytes) (version : Option Bytes) (p : LedProfile) (l : FirmwareLayout) (i : ℕ)
    (rule : FirmwareRule)
    → led_profile_find (some model) version ≡ some p
    → disk_firmware_layout (some model) (some revision) ≡ some l
    → get_elem? l.rules i ≡ some rule
    → lit model p rule ≡ true
unfolding led_profile_find disk_firmware_layout profile_lit layout_lit
rule-lit model revision version p l i rule found laid at =
    let (checked, named) =
      find_profile-every profile_lit model version led_profiles p profile_lit-every found in
    let (fits, same) = find_layout-every (layout_lit p) model revision layouts l checked laid in
    let here =
      left-out (same_text l.model p.product_name) (every (lit l.model p) l.rules) fits
        (subst (λ m. same_text m p.product_name ≡ true) same named) in
    subst (λ m. lit m p rule ≡ true) (sym same) (every-at (lit l.model p) l.rules i rule here at)

-- The disk that is stored, over its two tests.
placed-fields :
    (zero lit : Bool) (n : ℕ) (slot_name interface_type source : Bytes) (disk : Disk)
    → zero ≡ false
    → lit ≡ true
    → let r : Disk = if zero then record disk { slot = 0 } else record disk {
      slot = n;
      mapped = true;
      slot_name = slot_name;
      interface_type = interface_type;
      led_supported = lit;
      led_id = if lit then led_name n else [];
      mapping_source = source;
    } in
      (r.led_id ≡ led_name n) × (r.slot ≡ n) × (r.led_supported ≡ true) × (r.mapped ≡ true)
placed-fields false true n slot_name interface_type source disk z l = (refl, refl, refl, refl)
placed-fields true lit n slot_name interface_type source disk z l = cc
placed-fields false false n slot_name interface_type source disk z l = cc

not-false : (b : Bool) → not b ≡ true → b ≡ false
not-false true h = cc
not-false false h = refl

-- The slot of a rule with a LED is mapped to a lamp of the profile.
lamp-of :
    (model : Bytes) (p : LedProfile) (rule : FirmwareRule) (disk : Disk) (n : Option ℕ)
    → firmware_slot_has_led model rule ≡ true
    → has_lamp p.leds n ≡ true
    → (j : ℕ) × (led : LedDescriptor) × (get_elem? p.leds j ≡ some led)
      × (led.name ≡ (place_rule model rule disk n).led_id)
      × (led.bay ≡ (place_rule model rule disk n).slot)
      × ((place_rule model rule disk n).led_supported ≡ true)
      × ((place_rule model rule disk n).mapped ≡ true)
unfolding place_rule has_lamp is_lamp
lamp-of model p rule disk none e h = cc
lamp-of model p rule disk (some n) e h =
    let (numbered, lamps) = and-both (not (n == 0)) (any (is_lamp n) p.leds) h in
    let (j, led, at, fits) = any-at (is_lamp n) p.leds lamps in
    let (name, bay) = and-both (bytes_eq led.name (led_name n)) (led.bay == n) fits in
    let named = (bytes_eq_iff led.name (led_name n)).0 name in
    let placed = (==_iff led.bay n).0 bay in
    let (i, s, l, m) =
      placed-fields (n == 0) (firmware_slot_has_led model rule) n (take 31 rule.slot)
        (if str_is rule.interface_type "u2" then codes "u2" else disk.interface_type)
        (mapping_source_of model rule disk) disk (not-false (n == 0) numbered) e in
    (j, led, at, named ∙ sym i, placed ∙ sym s, l, m)

-- The disk tables and the LED tables agree: for a model that both know, a disk whose bay a rule of the
-- firmware gives a LED gets the name and the bay of a lamp that the LED profile of that model has.
pub apply_firmware_rule-lamp :
    (model revision : Bytes) (version : Option Bytes) (p : LedProfile) (l : FirmwareLayout) (i : ℕ)
    (rule : FirmwareRule) (disk : Disk)
    → led_profile_find (some model) version ≡ some p
    → disk_firmware_layout (some model) (some revision) ≡ some l
    → get_elem? l.rules i ≡ some rule
    → firmware_slot_has_led model rule ≡ true
    → (j : ℕ) × (led : LedDescriptor) × (get_elem? p.leds j ≡ some led)
      × (led.name ≡ (apply_firmware_rule model rule disk).led_id)
      × (led.bay ≡ (apply_firmware_rule model rule disk).slot)
      × ((apply_firmware_rule model rule disk).led_supported ≡ true)
      × ((apply_firmware_rule model rule disk).mapped ≡ true)
unfolding apply_firmware_rule lit
apply_firmware_rule-lamp model revision version p l i rule disk found laid at e =
    lamp-of model p rule disk (rule_number rule) e (
      left-out (firmware_slot_has_led model rule) (has_lamp p.leds (rule_number rule))
        (rule-lit model revision version p l i rule found laid at) e)
