-- ===== src/Disk/Namespaces/Joined.antt =====
-- What a run over the disks in `coalesce_nvme_namespaces`, disk/disk.c, does to its groups and names.
use mathlib.Core.List.{append-nil, append_assoc}
use ugreen_nas_hardware.Prelude.{
  ℕ, ◌≡◌, refl, sym, ap, ◌∙◌, subst, arith, Bool, true, false, not, ◌&&◌, List, [], ◌∷◌, ◌++◌,
  Option, none, some, if◌then◌else◌, length, get_elem?, Bytes, ok,
}
use ugreen_nas_hardware.Prelude.Written.{if-ok, bind-ok}
use ugreen_nas_hardware.Prelude.Scan.{is_empty}
use ugreen_nas_hardware.Network.Pci.{before_text}
use ugreen_nas_hardware.Disk.Types.{Disk, failed}
use ugreen_nas_hardware.Disk.Namespaces.{
  DiskGroup, GroupedName, Coalesced, find_group, same_physical, replace_at, add_name, join_group,
  coalesce_disks,
}
use ugreen_nas_hardware.Disk.Namespaces.Groups.{
  physical_of, controllers_of, is_listed, add_controller, same_physical-same, IsFoundGroup,
  find_group-IsFoundGroup, Extends, Extends-append, get_elem?-last, controllers_of-last,
  before_text_self, Extends-replace_at, get_elem?-replace_at, controllers_of-replace_at,
}

-- Every unknown controller, and each known one once, in the order of their first disks.
unfoldable pub one_each : List Bytes → List (Disk × Bytes) → List Bytes
unfolding add_controller
one_each known [] = known
one_each known ((disk, c) ∷ rest) = one_each (add_controller c known) rest

-- The group of this disk: one of its controller and of its physical identity, and the name of the disk
-- does not come before that of the representative.
abbrev pub IsGroupOf : List DiskGroup → Disk → Bytes → ℕ → DiskGroup → Type 0
IsGroupOf groups disk c i g =
    (get_elem? groups i ≡ some g)
    × (g.controller ≡ c)
    × (physical_of g.representative ≡ physical_of disk)
    × (before_text disk.name g.representative.name ≡ false)

-- Each disk with a known controller has, in the order of the disks, a name with the place of its group.
unfoldable pub AreNamed : List DiskGroup → List (Disk × Bytes) → List GroupedName → Type 0
AreNamed groups [] named = named ≡ []
AreNamed groups ((disk, c) ∷ rest) named =
    (i : ℕ) × (g : DiskGroup) × (tail : List GroupedName) × IsGroupOf groups disk c i g
    × (named ≡ (
        if is_empty c then tail else record { name = disk.name; wwn = disk.wwn; group = i } ∷ tail))
    × AreNamed groups rest tail

-- What one disk does.
record IsJoined (disk : Disk) (c : Bytes) (before after : Coalesced) : Type 0 where
  kept : Extends before.groups after.groups
  at : ℕ
  group : DiskGroup
  here : IsGroupOf after.groups disk c at group
  named : after.named ≡ add_name disk c at before.named
  controllers : controllers_of after.groups ≡ add_controller c (controllers_of before.groups)

add_controller-listed :
    (c : Bytes) (known : List Bytes)
    → (not (is_empty c) && is_listed c known) ≡ true
    → add_controller c known ≡ known
unfolding add_controller
add_controller-listed c known h = rw h refl

add_controller-new :
    (c : Bytes) (known : List Bytes)
    → (not (is_empty c) && is_listed c known) ≡ false
    → add_controller c known ≡ known ++ c ∷ []
unfolding add_controller
add_controller-new c known h = rw h refl

-- The representative is replaced, or not.
replaced :
    (test : Bool) (i : ℕ) (disk : Disk) (c : Bytes) (state : Coalesced) (g : DiskGroup)
    (named : List GroupedName)
    → get_elem? state.groups i ≡ some g
    → g.controller ≡ c
    → physical_of g.representative ≡ physical_of disk
    → before_text disk.name g.representative.name ≡ test
    → named ≡ add_name disk c i state.named
    → controllers_of state.groups ≡ add_controller c (controllers_of state.groups)
    → IsJoined disk c state (record {
      groups = if test then replace_at i disk state.groups else state.groups;
      named = named;
    })
replaced true i disk c state g named at own same order n listed = record {
  kept = Extends-replace_at i disk state.groups g at same order;
  at = i;
  group = record g { representative = disk };
  here = (get_elem?-replace_at i disk state.groups g at, own, refl, before_text_self disk.name);
  named = n;
  controllers = controllers_of-replace_at i disk state.groups ∙ listed;
}
replaced false i disk c state g named at own same order n listed = record {
  kept = λ j x h. (x, h, refl, refl, λ n k. k);
  at = i;
  group = g;
  here = (at, own, same, order);
  named = n;
  controllers = listed;
}

not-false : (b : Bool) → not b ≡ false → b ≡ true
not-false b h = ground arith

join_group-IsJoined :
    (disk : Disk) (c : Bytes) (state after : Coalesced) (found : Option (ℕ × Disk))
    → IsFoundGroup c state.groups
        (not (is_empty c) && is_listed c (controllers_of state.groups))
        found
    → join_group disk c state found ≡ ok after
    → IsJoined disk c state after
unfolding join_group
join_group-IsJoined disk c state after none new h =
    let group : DiskGroup = record { representative = disk; controller = c } in
    let next : Coalesced = record {
      groups = state.groups ++ group ∷ [];
      named = add_name disk c (length state.groups) state.named;
    } in
    let same : next ≡ after = cc in
    subst (IsJoined disk c state) same (record {
      kept = Extends-append state.groups (group ∷ []);
      at = length state.groups;
      group = group;
      here = (get_elem?-last state.groups group, refl, refl, before_text_self disk.name);
      named = refl;
      controllers =
          controllers_of-last state.groups group
          ∙ sym (add_controller-new c (controllers_of state.groups) new);
    })
join_group-IsJoined disk c state after (some (i, physical)) (listed, (g, at, rep, own)) h =
    let next : Coalesced = record {
      groups =
          if before_text disk.name physical.name
          then replace_at i disk state.groups
          else state.groups;
      named = add_name disk c i state.named;
    } in
    let (test, done) = if-ok (not (same_physical physical disk)) failed (ok next) after h in
    let same : next ≡ after = cc in
    let identity =
      ap physical_of rep
      ∙ same_physical-same physical disk (not-false (same_physical physical disk) test) in
    subst (IsJoined disk c state) same (
      replaced (before_text disk.name physical.name) i disk c state g next.named at own identity
        (ap (λ d. before_text disk.name d.name) rep) refl
        (sym (add_controller-listed c (controllers_of state.groups) listed)))

-- What a run over disks does.
pub record AreJoined (disks : List (Disk × Bytes)) (before after : Coalesced) : Type 0 where
  kept : Extends before.groups after.groups
  pub more : List GroupedName
  pub names : AreNamed after.groups disks more
  pub named : after.named ≡ before.named ++ more
  pub controllers : controllers_of after.groups ≡ one_each (controllers_of before.groups) disks

added :
    (unknown : Bool) (x : GroupedName) (named more : List GroupedName)
    → (if unknown then named else named ++ x ∷ []) ++ more
      ≡ named ++ (if unknown then more else x ∷ more)
added true x named more = refl
added false x named more = append_assoc named (x ∷ []) more

pub coalesce_disks-AreJoined :
    (disks : List (Disk × Bytes)) (state after : Coalesced)
    → coalesce_disks disks state ≡ ok after
    → AreJoined disks state after
unfolding coalesce_disks AreNamed one_each add_name
coalesce_disks-AreJoined [] state after h =
    let same : state ≡ after = cc in
    subst (AreJoined [] state) same (record {
      kept = λ j x at. (x, at, refl, refl, λ n k. k);
      more = [];
      names = refl;
      named = sym (append-nil state.named);
      controllers = refl;
    })
coalesce_disks-AreJoined ((disk, c) ∷ rest) state after h =
    let (next, joined, later) =
      bind-ok (join_group disk c state (find_group c state.groups)) _ after h in
    let first =
      join_group-IsJoined disk c state next (find_group c state.groups)
        (find_group-IsFoundGroup c state.groups) joined in
    let others = coalesce_disks-AreJoined rest next after later in
    let (at, own, same, order) = first.here in
    let (g, at', own', same', order') = others.kept first.at first.group at in
    let name : GroupedName = record { name = disk.name; wwn = disk.wwn; group = first.at } in
    record {
      kept = λ j x h'.
          let (y, a, b, d, o) = first.kept j x h' in
          let (z, a', b', d', o') = others.kept j y a in
          (z, a', b' ∙ b, d' ∙ d, λ n k. o' n (o n k));
      more = if is_empty c then others.more else name ∷ others.more;
      names = (
        first.at,
        g,
        others.more,
        (at', own' ∙ own, same' ∙ same, order' disk.name order),
        refl,
        others.names,
      );
      named =
          others.named
          ∙ ap (λ l. l ++ others.more) first.named
          ∙ added (is_empty c) name state.named others.more;
      controllers = others.controllers ∙ ap (λ l. one_each l rest) first.controllers;
    }
