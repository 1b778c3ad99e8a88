-- ===== src/Disk/Resolve/Laws.antt =====
-- On the disk that a selector means.
use ugreen_nas_hardware.Prelude.{
  ℕ, suc, ◌+◌, ◌≡◌, ◌↔◌, ◌≤◌, refl, sym, ap, ◌∙◌, subst, arith, Bool, true, false, not, ◌||◌, List,
  [], ◌∷◌, Option, none, some, ltb, ◌==◌, if◌then◌else◌, length, Bytes, ok, err, enotsup,
}
use ugreen_nas_hardware.Prelude.Written.{if-ok}
use ugreen_nas_hardware.Prelude.Scan.{is_empty}
use ugreen_nas_hardware.Disk.Types.{Disk, DiskScan, disk_max, failed}
use ugreen_nas_hardware.Disk.Resolve.{
  selector_slot, is_match, find_matches, one_match, disk_resolve,
}

-- The disks that a selector means, in their order.
unfoldable pub meant : DiskScan → Bytes → List Disk → List Disk
unfolding is_match selector_slot
meant scan selector [] = []
meant scan selector (disk ∷ disks) =
    let rest = meant scan selector disks in
    if is_match scan selector (selector_slot selector) disk then disk ∷ rest else rest

abbrev last_or : Option Disk → List Disk → Option Disk
last_or found [] = found
last_or found (disk ∷ disks) = last_or (some disk) disks

picked :
    (test : Bool) (disk : Disk) (rest : List Disk) (found : Option Disk) (n : ℕ)
    (with_it without : Option Disk × ℕ)
    → with_it ≡ (last_or (some disk) rest, suc n + length rest)
    → without ≡ (last_or found rest, n + length rest)
    → (if test then with_it else without) ≡ (
      last_or found (if test then disk ∷ rest else rest),
      n + length (if test then disk ∷ rest else rest),
    )
picked true disk rest found n with_it without h k =
    let count : suc n + length rest ≡ n + suc (length rest) = omega arith in
    h ∙ ap (λ m. (last_or (some disk) rest, m)) count
picked false disk rest found n with_it without h k = k

find_matches-meant :
    (scan : DiskScan) (selector : Bytes) (disks : List Disk) (found : Option Disk) (n : ℕ)
    → find_matches scan selector (selector_slot selector) disks found n
      ≡ (last_or found (meant scan selector disks), n + length (meant scan selector disks))
unfolding find_matches meant
find_matches-meant scan selector [] found n =
    let none_left : n ≡ n + 0 = omega arith in ap (λ m. (found, m)) none_left
find_matches-meant scan selector (disk ∷ disks) found n =
    picked (is_match scan selector (selector_slot selector) disk) disk (meant scan selector disks)
      found n _ _ (find_matches-meant scan selector disks (some disk) (suc n))
      (find_matches-meant scan selector disks found n)

one_match-several :
    (found : Option Disk) (n : ℕ) (disk : Disk) → one_match (found, suc (suc n)) ≡ ok disk → ⊥
one_match-several none n disk h = cc
one_match-several (some d) n disk h =
    let several : not (suc (suc n) == 1) ≡ true = ground arith in
    let (once, _) = if-ok (not (suc (suc n) == 1)) failed _ disk h in
    let clash : true ≡ false = sym several ∙ once in cc

supported :
    (mapped led_supported empty : Bool) (found disk : Disk)
    → ((if not mapped
          then err failed
          else if not led_supported || empty
          then err enotsup
          else ok found)
        ≡ ok disk)
      ↔ ((found ≡ disk) × (mapped ≡ true) × (led_supported ≡ true) × (empty ≡ false))
supported true true false found disk = (λ h. (cc, refl, refl, refl), λ (same, _, _, _). ap ok same)
supported true true true found disk = (λ h. cc, λ (_, _, _, e). cc)
supported true false empty found disk = (λ h. cc, λ (_, _, l, _). cc)
supported false led_supported empty found disk = (λ h. cc, λ (_, m, _, _). cc)

one_match-meant :
    (disks : List Disk) (disk : Disk)
    → (one_match (last_or none disks, length disks) ≡ ok disk) ↔ (
        (disks ≡ disk ∷ [])
        × (disk.mapped ≡ true)
        × (disk.led_supported ≡ true)
        × (is_empty disk.led_id ≡ false))
one_match-meant [] disk = (λ h. cc, λ (only, _, _, _). cc)
one_match-meant (found ∷ []) disk = (
  λ h.
      let (same, m, l, e) =
        (supported found.mapped found.led_supported (is_empty found.led_id) found disk).0 h in
      subst
        (λ d.
          (found ∷ [] ≡ d ∷ [])
          × (d.mapped ≡ true)
          × (d.led_supported ≡ true)
          × (is_empty d.led_id ≡ false))
        same (refl, m, l, e),
  λ (only, m, l, e).
      let same : disk ≡ found = cc in
      let (m', l', e') =
        subst (λ d. (d.mapped ≡ true) × (d.led_supported ≡ true) × (is_empty d.led_id ≡ false)) same
          (m, l, e) in
      (supported found.mapped found.led_supported (is_empty found.led_id) found disk).1
        (sym same, m', l', e'),
)
one_match-meant (first ∷ second ∷ rest) disk = (
  λ h. absurd (one_match-several (last_or (some second) rest) (length rest) disk h),
  λ (only, _, _, _). cc,
)

-- With a selector and a scan within their bounds, a disk is chosen exactly where it is the only disk
-- that the selector means, it is mapped to a bay, and the bay has a LED with a name.
pub disk_resolve_iff :
    (scan : DiskScan) (selector : Bytes) (disk : Disk)
    → is_empty selector ≡ false
    → length scan.disks ≤ disk_max
    → length scan.namespace_aliases ≤ disk_max
    → (disk_resolve (some scan) (some selector) ≡ ok disk) ↔ (
        (meant scan selector scan.disks ≡ disk ∷ [])
        × (disk.mapped ≡ true)
        × (disk.led_supported ≡ true)
        × (is_empty disk.led_id ≡ false))
unfolding disk_resolve
disk_resolve_iff scan selector disk e n m =
    let usable : (is_empty selector
          || ltb disk_max (length scan.disks)
          || ltb disk_max (length scan.namespace_aliases))
        ≡ false =
      ground arith in
    let found = find_matches-meant scan selector scan.disks none 0 in
    let from_zero : 0 + length (meant scan selector scan.disks)
        ≡ length (meant scan selector scan.disks) =
      omega arith in
    let path : disk_resolve (some scan) (some selector)
        ≡ one_match (
          last_or none (meant scan selector scan.disks),
          length (meant scan selector scan.disks),
        ) =
      rw (usable, found, from_zero) refl in
    subst
      (λ r. (r ≡ ok disk) ↔ (
        (meant scan selector scan.disks ≡ disk ∷ [])
        × (disk.mapped ≡ true)
        × (disk.led_supported ≡ true)
        × (is_empty disk.led_id ≡ false)))
      (sym path) (one_match-meant (meant scan selector scan.disks) disk)
