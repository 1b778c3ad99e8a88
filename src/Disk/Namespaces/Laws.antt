-- ===== src/Disk/Namespaces/Laws.antt =====
-- What `coalesce_nvme_namespaces`, disk/disk.c, leaves of the disks and of their aliases.

use ugreen_nas_hardware.Prelude.{
  ℕ, zero, suc, ◌+◌, ◌≡◌, ◌≤◌, refl, sym, ap, ◌∙◌, subst, arith, Bool, true, false, not, ◌&&◌, List,
  [], ◌∷◌, ◌++◌, some, if◌then◌else◌, length, length-append, get_elem?, Bytes, ok,
}
use ugreen_nas_hardware.Prelude.Written.{bind-ok}
use ugreen_nas_hardware.Prelude.Scan.{is_empty}
use ugreen_nas_hardware.Disk.Types.{Disk, NamespaceAlias, DiskScan}
use ugreen_nas_hardware.Disk.Namespaces.{
  DiskGroup, GroupedName, Coalesced, coalesce_disks, name_at, aliases_of, disks_of,
  coalesce_nvme_namespaces,
}
use ugreen_nas_hardware.Disk.Namespaces.Groups.{controllers_of, is_listed, add_controller}
use ugreen_nas_hardware.Disk.Namespaces.Joined.{
  one_each, IsGroupOf, AreNamed, coalesce_disks-AreJoined,
}

-- Each disk with a known controller has, in the order of the disks, an alias with its name and WWN that
-- leads to the representative of its group; a disk of an unknown controller has none.
unfoldable pub AreAliased : List DiskGroup → List (Disk × Bytes) → List NamespaceAlias → Type 0
AreAliased groups [] aliases = aliases ≡ []
AreAliased groups ((disk, c) ∷ rest) aliases =
    (i : ℕ) × (g : DiskGroup) × (tail : List NamespaceAlias) × IsGroupOf groups disk c i g
    × (aliases ≡ (
        if is_empty c
        then tail
        else record { name = disk.name; wwn = disk.wwn; disk_name = g.representative.name } ∷ tail))
    × AreAliased groups rest tail

name_at-group :
    (groups : List DiskGroup) (i : ℕ) (g : DiskGroup)
    → get_elem? groups i ≡ some g
    → name_at groups i ≡ g.representative.name
name_at-group [] i g h = cc
name_at-group (first ∷ groups) zero g h =
    let here : first ≡ g = cc in ap (λ x. x.representative.name) here
name_at-group (first ∷ groups) (suc i) g h = name_at-group groups i g h

made :
    (unknown : Bool) (groups : List DiskGroup) (x : GroupedName) (named tail : List GroupedName)
    (target : Bytes)
    → named ≡ (if unknown then tail else x ∷ tail)
    → name_at groups x.group ≡ target
    → aliases_of groups named ≡ (
        if unknown
        then aliases_of groups tail
        else record { name = x.name; wwn = x.wwn; disk_name = target } ∷ aliases_of groups tail)
unfolding aliases_of
made true groups x named tail target e h = ap (aliases_of groups) e
made false groups x named tail target e h =
    ap (aliases_of groups) e
    ∙ ap {A = Bytes} {B = List NamespaceAlias}
        (λ t. record { name = x.name; wwn = x.wwn; disk_name = t } ∷ aliases_of groups tail) h

aliases_of-AreAliased :
    (groups : List DiskGroup) (disks : List (Disk × Bytes)) (named : List GroupedName)
    → AreNamed groups disks named
    → AreAliased groups disks (aliases_of groups named)
unfolding AreNamed AreAliased aliases_of
aliases_of-AreAliased groups [] named h = ap (aliases_of groups) h
aliases_of-AreAliased groups ((disk, c) ∷ rest) named (i, g, tail, own, e, names) = (
  i,
  g,
  aliases_of groups tail,
  own,
  made (is_empty c) groups (record { name = disk.name; wwn = disk.wwn; group = i }) named tail
      g.representative.name e (name_at-group groups i g own.0),
  aliases_of-AreAliased groups rest tail names,
)

length-disks_of :
    (groups : List DiskGroup) → length (disks_of groups) ≡ length (controllers_of groups)
unfolding disks_of controllers_of
length-disks_of [] = refl
length-disks_of (group ∷ groups) = ap suc (length-disks_of groups)

length-add_controller :
    (c : Bytes) (known : List Bytes) → length (add_controller c known) ≤ suc (length known)
unfolding add_controller
length-add_controller c known = by_test (not (is_empty c) && is_listed c known)
  where
    by_test : (test : Bool) → length (if test then known else known ++ c ∷ []) ≤ suc (length known)
    by_test true = omega arith
    by_test false = omega (arith, length-append known (c ∷ []))

length-one_each :
    (known : List Bytes) (disks : List (Disk × Bytes))
    → length (one_each known disks) ≤ length known + length disks
unfolding one_each
length-one_each known [] = omega arith
length-one_each known ((disk, c) ∷ rest) =
    omega (arith, length-one_each (add_controller c known) rest, length-add_controller c known)

AreAliased-length :
    (groups : List DiskGroup) (disks : List (Disk × Bytes)) (aliases : List NamespaceAlias)
    → AreAliased groups disks aliases
    → length aliases ≤ length disks
unfolding AreAliased
AreAliased-length groups [] aliases h = let none_left = ap length h in omega arith
AreAliased-length groups ((disk, c) ∷ rest) aliases (i, g, tail, own, e, h) =
    let few = AreAliased-length groups rest tail h in by_test (is_empty c) _ (ap length e) few
  where
    by_test :
        (unknown : Bool) (x : NamespaceAlias)
        → length aliases ≡ length (if unknown then tail else x ∷ tail)
        → length tail ≤ length rest
        → length aliases ≤ suc (length rest)
    by_test true x k few = omega arith
    by_test false x k few = omega arith

one_each-start :
    (disks : List (Disk × Bytes)) → one_each (controllers_of []) disks ≡ one_each [] disks
unfolding controllers_of
one_each-start disks = refl

-- The disks of a scan are the representatives of groups, one for each unknown controller and one for
-- each known controller, in the order of their first disks.
pub record AreCoalesced (disks : List (Disk × Bytes)) (scan : DiskScan) : Type 0 where
  pub groups : List DiskGroup
  pub represented : scan.disks ≡ disks_of groups
  pub once : controllers_of groups ≡ one_each [] disks
  pub aliased : AreAliased groups disks scan.namespace_aliases
  pub few_disks : length scan.disks ≤ length disks
  pub few_aliases : length scan.namespace_aliases ≤ length disks

-- After the namespaces are put together, the disks of the scan stand one for each known controller and
-- one for each disk of an unknown controller, in the order of their first disks. Each disk that was
-- given belongs to one of its own controller with the same PCI address, serial, interface, bay and
-- LED, whose name its own name does not come before, and if its controller is known there is, in the order of the disks, one alias with its name
-- and WWN that leads to it. There are no more disks and no more aliases than were given.
pub coalesce_nvme_namespaces-disk :
    (disks : List (Disk × Bytes)) (scan scan' : DiskScan)
    → coalesce_nvme_namespaces disks scan ≡ ok scan'
    → AreCoalesced disks scan'
unfolding coalesce_nvme_namespaces
coalesce_nvme_namespaces-disk disks scan scan' h =
    let start : Coalesced = record { groups = []; named = [] } in
    let (state, joined, stored) = bind-ok (coalesce_disks disks start) _ scan' h in
    let run = coalesce_disks-AreJoined disks start state joined in
    let names = subst (AreNamed state.groups disks) (sym run.named) run.names in
    let aliased = aliases_of-AreAliased state.groups disks state.named names in
    let here : record scan {
      disks = disks_of state.groups;
      namespace_aliases = aliases_of state.groups state.named;
    }
        ≡ scan' =
      cc in
    subst (AreCoalesced disks) here (record {
      groups = state.groups;
      represented = refl;
      once = run.controllers ∙ one_each-start disks;
      aliased = aliased;
      few_disks = omega (
        arith,
        length-disks_of state.groups,
        ap length run.controllers,
        ap length (one_each-start disks),
        length-one_each [] disks,
      );
      few_aliases =
          AreAliased-length state.groups disks (aliases_of state.groups state.named) aliased;
    })
