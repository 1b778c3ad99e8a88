-- ===== src/Disk/Namespaces/Groups.antt =====
-- The groups of `coalesce_nvme_namespaces`, disk/disk.c: which group is found, and what stays when a
-- disk joins.

use ugreen_nas_hardware.Prelude.{
  ℕ, zero, suc, ◌≡◌, refl, sym, ap, ◌∙◌, arith, Bool, true, false, not, ◌&&◌, ◌||◌, List, [], ◌∷◌,
  ◌++◌, Option, none, some, if◌then◌else◌, length, get_elem?, ◌==◌, ==_iff, Bool-cases, inl, inr,
  Bytes, bytes_eq,
}
use ugreen_nas_hardware.Prelude.Text.{bytes_eq_iff}
use ugreen_nas_hardware.Prelude.Scan.{is_empty}
use ugreen_nas_hardware.Network.Pci.{before_text}
use ugreen_nas_hardware.Disk.Types.{Disk}
use ugreen_nas_hardware.Disk.Namespaces.{
  DiskGroup, later_group, same_flag, find_group, same_physical, replace_at,
}

-- What must be the same for all namespaces of a controller.
abbrev pub physical_of : Disk → Bytes × Bytes × Bytes × Bool × ℕ × Bool × Bytes × Bytes
physical_of d =
    (d.pci, d.serial, d.interface_type, d.mapped, d.slot, d.led_supported, d.slot_name, d.led_id)

unfoldable pub controllers_of : List DiskGroup → List Bytes
controllers_of [] = []
controllers_of (group ∷ groups) = group.controller ∷ controllers_of groups

unfoldable pub is_listed : Bytes → List Bytes → Bool
is_listed c [] = false
is_listed c (known ∷ rest) = let later = is_listed c rest in bytes_eq c known || later

-- A controller that is known is listed once.
unfoldable pub add_controller : Bytes → List Bytes → List Bytes
unfolding is_listed
add_controller c known = if not (is_empty c) && is_listed c known then known else known ++ c ∷ []

all-true :
    (a b c d e f g h : Bool)
    → (a && b && c && d && e && f && g && h) ≡ true
    → (a ≡ true)
      × (b ≡ true)
      × (c ≡ true)
      × (d ≡ true)
      × (e ≡ true)
      × (f ≡ true)
      × (g ≡ true)
      × (h ≡ true)
all-true a b c d e f g h k = ground arith

flags : (a b : Bool) → same_flag a b ≡ true → a ≡ b
flags a b h = ground arith

pub same_physical-same : (a b : Disk) → same_physical a b ≡ true → physical_of a ≡ physical_of b
unfolding same_physical
same_physical-same a b h =
    let (h₁, h₂, h₃, h₄, h₅, h₆, h₇, h₈) =
      all-true (bytes_eq a.pci b.pci) (bytes_eq a.serial b.serial)
        (bytes_eq a.interface_type b.interface_type) (same_flag a.mapped b.mapped)
        (a.slot == b.slot) (same_flag a.led_supported b.led_supported)
        (bytes_eq a.slot_name b.slot_name) (bytes_eq a.led_id b.led_id) h in
    let pci = (bytes_eq_iff a.pci b.pci).0 h₁ in
    let serial = (bytes_eq_iff a.serial b.serial).0 h₂ in
    let kind = (bytes_eq_iff a.interface_type b.interface_type).0 h₃ in
    let mapped = flags a.mapped b.mapped h₄ in
    let slot = (==_iff a.slot b.slot).0 h₅ in
    let led = flags a.led_supported b.led_supported h₆ in
    let slot_name = (bytes_eq_iff a.slot_name b.slot_name).0 h₇ in
    let led_id = (bytes_eq_iff a.led_id b.led_id).0 h₈ in cc

-- A group is found exactly where its controller is known and listed, and it is a group of this
-- controller.
abbrev pub IsFoundGroup : Bytes → List DiskGroup → Bool → Option (ℕ × Disk) → Type 0
IsFoundGroup c groups listed none = listed ≡ false
IsFoundGroup c groups listed (some (i, disk)) =
    (listed ≡ true)
    × ((g : DiskGroup) × (get_elem? groups i ≡ some g)
        × (g.representative ≡ disk)
        × (g.controller ≡ c))

lifted :
    (c : Bytes) (g : DiskGroup) (groups : List DiskGroup) (listed : Bool)
    (later : Option (ℕ × Disk))
    → IsFoundGroup c groups listed later
    → IsFoundGroup c (g ∷ groups) listed (later_group later)
lifted c g groups listed none h = h
lifted c g groups listed (some (i, disk)) h = h

found_step :
    (c : Bytes) (g : DiskGroup) (groups : List DiskGroup) (unknown empty same listed : Bool)
    (later : Option (ℕ × Disk))
    → (same ≡ true → c ≡ g.controller)
    → (same ≡ true → empty ≡ unknown)
    → IsFoundGroup c groups (not unknown && listed) later
    → IsFoundGroup c
        (g ∷ groups)
        (not unknown && (same || listed))
        (if not unknown && not empty && same then some (0, g.representative) else later_group later)
found_step c g groups true empty same listed later k l h = lifted c g groups false later h
found_step c g groups false true true listed later k l h = let no : true ≡ false = l refl in cc
found_step c g groups false true false listed later k l h = lifted c g groups listed later h
found_step c g groups false false true listed later k l h = (refl, (g, refl, refl, sym (k refl)))
found_step c g groups false false false listed later k l h = lifted c g groups listed later h

pub find_group-IsFoundGroup :
    (c : Bytes) (groups : List DiskGroup)
    → IsFoundGroup c groups
        (not (is_empty c) && is_listed c (controllers_of groups))
        (find_group c groups)
unfolding find_group controllers_of is_listed
find_group-IsFoundGroup c [] = no_group (is_empty c)
  where
    no_group : (b : Bool) → (not b && false) ≡ false
    no_group true = refl
    no_group false = refl
find_group-IsFoundGroup c (g ∷ groups) =
    found_step c g groups (is_empty c) (is_empty g.controller) (bytes_eq c g.controller)
      (is_listed c (controllers_of groups)) (find_group c groups) (bytes_eq_iff c g.controller).0
      (λ e. ap is_empty (sym ((bytes_eq_iff c g.controller).0 e)))
      (find_group-IsFoundGroup c groups)

pub before_text_self : (x : Bytes) → before_text x x ≡ false
unfolding before_text
before_text_self [] = refl
before_text_self (a ∷ x) = ground (arith, before_text_self x)

before_text_trans :
    (x y z : Bytes) → before_text x y ≡ true → before_text y z ≡ true → before_text x z ≡ true
unfolding before_text
before_text_trans x [] z h k = cc
before_text_trans x (b ∷ y) [] h k = cc
before_text_trans [] (b ∷ y) (c ∷ z) h k = refl
before_text_trans (a ∷ x) (b ∷ y) (c ∷ z) h k = ground (arith, before_text_trans x y z)

-- What does not come before the later text does not come before the earlier one.
before_text_later :
    (x d r : Bytes) → before_text d r ≡ true → before_text x r ≡ false → before_text x d ≡ false
before_text_later x d r h k = elim (Bool-cases (before_text x d)) [
  | inl first ↦ let no = before_text_trans x d r first h in cc
  | inr later ↦ later
]

-- Each group is still at its place, with its controller and its physical identity, and no name comes
-- before its representative that did not.
abbrev pub Extends : List DiskGroup → List DiskGroup → Type 0
Extends before after =
    (i : ℕ) (g : DiskGroup)
    → get_elem? before i ≡ some g
    → (g' : DiskGroup) × (get_elem? after i ≡ some g')
      × (g'.controller ≡ g.controller)
      × (physical_of g'.representative ≡ physical_of g.representative)
      × ((name : Bytes)
          → before_text name g.representative.name ≡ false
          → before_text name g'.representative.name ≡ false)

pub Extends-append : (groups more : List DiskGroup) → Extends groups (groups ++ more)
Extends-append [] more i g h = cc
Extends-append (first ∷ groups) more zero g h = (g, h, refl, refl, λ n k. k)
Extends-append (first ∷ groups) more (suc i) g h = Extends-append groups more i g h

pub get_elem?-last :
    (groups : List DiskGroup) (g : DiskGroup)
    → get_elem? (groups ++ g ∷ []) (length groups) ≡ some g
get_elem?-last [] g = refl
get_elem?-last (first ∷ groups) g = get_elem?-last groups g

pub controllers_of-last :
    (groups : List DiskGroup) (g : DiskGroup)
    → controllers_of (groups ++ g ∷ []) ≡ controllers_of groups ++ g.controller ∷ []
unfolding controllers_of
controllers_of-last [] g = refl
controllers_of-last (first ∷ groups) g =
    ap (λ l. first.controller ∷ l) (controllers_of-last groups g)

pub Extends-replace_at :
    (i : ℕ) (disk : Disk) (groups : List DiskGroup) (g : DiskGroup)
    → get_elem? groups i ≡ some g
    → physical_of g.representative ≡ physical_of disk
    → before_text disk.name g.representative.name ≡ true
    → Extends groups (replace_at i disk groups)
Extends-replace_at i disk [] g at same first_name j g' h = cc
Extends-replace_at zero disk (first ∷ groups) g at same first_name zero g' h =
    let here : first ≡ g = cc in
    let here' : first ≡ g' = cc in
    (
      record first { representative = disk },
      refl,
      ap (λ x. x.controller) here',
      sym same ∙ ap (λ x. physical_of x.representative) (sym here ∙ here'),
      λ n k.
          before_text_later n disk.name g.representative.name first_name
            (ap (λ x. before_text n x.representative.name) (sym here ∙ here') ∙ k),
    )
Extends-replace_at zero disk (first ∷ groups) g at same first_name (suc j) g' h =
    (g', h, refl, refl, λ n k. k)
Extends-replace_at (suc i) disk (first ∷ groups) g at same first_name zero g' h =
    (g', h, refl, refl, λ n k. k)
Extends-replace_at (suc i) disk (first ∷ groups) g at same first_name (suc j) g' h =
    Extends-replace_at i disk groups g at same first_name j g' h

pub get_elem?-replace_at :
    (i : ℕ) (disk : Disk) (groups : List DiskGroup) (g : DiskGroup)
    → get_elem? groups i ≡ some g
    → get_elem? (replace_at i disk groups) i ≡ some (record g { representative = disk })
get_elem?-replace_at i disk [] g h = cc
get_elem?-replace_at zero disk (first ∷ groups) g h =
    let here : first ≡ g = cc in
    ap {A = DiskGroup} {B = Option DiskGroup} (λ x. some (record x { representative = disk })) here
get_elem?-replace_at (suc i) disk (first ∷ groups) g h = get_elem?-replace_at i disk groups g h

pub controllers_of-replace_at :
    (i : ℕ) (disk : Disk) (groups : List DiskGroup)
    → controllers_of (replace_at i disk groups) ≡ controllers_of groups
unfolding controllers_of
controllers_of-replace_at i disk [] = refl
controllers_of-replace_at zero disk (group ∷ groups) = refl
controllers_of-replace_at (suc i) disk (group ∷ groups) =
    ap (λ l. group.controller ∷ l) (controllers_of-replace_at i disk groups)
