-- ===== src/Led/N76/Laws.antt =====
-- What the planned writes touch and how many there are.
use ugreen_nas_hardware.Prelude.{
  ℕ, ◌+◌, ◌*◌, ◌^◌, ◌≤◌, ◌<◌, ◌≡◌, ◌⊎◌, inl, inr, not, ◌&&◌, ◌==◌, if◌then◌else◌, refl, arith, Bool,
  true, false, List, [], ◌∷◌, ◌++◌, ap, All, length, length-append, u32, Option, none, some,
  Result-cases, subst, ok,
}
use ugreen_nas_hardware.Prelude.Every.{All-snoc}
use ugreen_nas_hardware.Led.Types.{
  LedPatch, LedProfile, has, mode_off, mode_blink, patch_brightness, patch_timing,
}
use ugreen_nas_hardware.Led.Patch.{validate_target_patch}
use ugreen_nas_hardware.Led.N76.{
  N76Command, N76Plan, command, append, n76_plan, plan_accepted, compose, find_target, stop_effects,
  add_timing, add_brightness, add_blink, bit_of, is_dh2600, is_dxp480t,
}

-- The registers of one lamp: its two effect registers and its eight duration registers.
abbrev pub IsOwn : ℕ → ℕ → Type 0
IsOwn bit reg =
    ((0x50 + bit ≤ reg) × (reg ≤ 0x51 + bit))
    ⊎ ((0xc0 + bit * 2 ≤ reg) × (reg ≤ 0xc3 + bit * 2))
    ⊎ ((0xd0 + bit * 2 ≤ reg) × (reg ≤ 0xd3 + bit * 2))

-- The registers that the lamps of a model share: the switch, the color and the two of brightness.
abbrev pub IsShared : ℕ → Type 0
IsShared reg = (reg ≡ 0xa0) ⊎ (reg ≡ 0xb1) ⊎ (reg ≡ 0xe0) ⊎ (reg ≡ 0xe1)

abbrev pub IsFor : ℕ → N76Command → Type 0
IsFor bit c = (IsOwn bit c.reg ⊎ IsShared c.reg) × (c.value < 256) × (c.settle_ms ≤ 10)

-- At most `n` writes, each for the lamp at `bit`, and the first three stop its effects.
pub record Fits (bit n : ℕ) (plan : N76Plan) : Type 0 where
  pub own : All (IsFor bit) plan.commands
  pub few : length plan.commands ≤ n
  pub stopped :
      (rest : List N76Command) × (plan.commands
        ≡ command (0x50 + bit) 0 ∷ command (0x51 + bit) 0 ∷ command 0xb1 (u32 (3 * 2 ^ bit)) ∷ rest)

command-IsFor :
    (bit reg value : ℕ) → bit ≤ 4 → IsOwn bit reg ⊎ IsShared reg → IsFor bit (command reg value)
command-IsFor bit reg value h o = ground arith

append-Fits :
    (bit n reg value : ℕ) (plan : N76Plan)
    → bit ≤ 4
    → IsOwn bit reg ⊎ IsShared reg
    → Fits bit n plan
    → Fits bit (n + 1) (append plan reg value)
append-Fits bit n reg value plan h o f = record {
  own =
      All-snoc (IsFor bit) plan.commands (command reg value) f.own
        (command-IsFor bit reg value h o);
  few = omega (arith, length-append plan.commands (command reg value ∷ []), f.few);
  stopped =
      (f.stopped.0 ++ command reg value ∷ [], ap (λ cs. cs ++ command reg value ∷ []) f.stopped.1);
}

stop_effects-Fits : (bit : ℕ) → bit ≤ 4 → Fits bit 3 (stop_effects bit)
unfolding stop_effects
stop_effects-Fits bit h = record {
  own = (
    command-IsFor bit (0x50 + bit) 0 h (inl (inl (omega arith))),
    (
      command-IsFor bit (0x51 + bit) 0 h (inl (inl (omega arith))),
      (command-IsFor bit 0xb1 (u32 (3 * 2 ^ bit)) h (inr (inr (inl refl))), tt),
    ),
  );
  few = omega arith;
  stopped = ([], refl);
}

weaken : (bit m n : ℕ) (plan : N76Plan) → m ≤ n → Fits bit m plan → Fits bit n plan
weaken bit m n plan h f = record { own = f.own; few = omega (arith, f.few); stopped = f.stopped }

if-both : (P : N76Plan → Type 0) (b : Bool) {x y : N76Plan} → P x → P y → P (if b then x else y)
if-both P true p q = p
if-both P false p q = q

add_timing-Fits :
    (bit n : ℕ) (p : LedPatch) (plan : N76Plan)
    → bit ≤ 4
    → Fits bit n plan
    → Fits bit (n + 4) (add_timing bit p plan)
unfolding add_timing
add_timing-Fits bit n p plan h f =
    let channel : ℕ = if p.value.color == 2 then 2 else 0 in
    let small : channel ≤ 2 = ground arith in
    if-both (Fits bit (n + 4)) (has p patch_timing)
      (weaken bit (n + 1 + 1 + 1 + 1) (n + 4) _ (omega arith) (
        append-Fits bit _ (0xd1 + bit * 2 + channel) _ _ h (inl (inr (inr (omega arith)))) (
          append-Fits bit _ (0xd0 + bit * 2 + channel) _ _ h (inl (inr (inr (omega arith)))) (
            append-Fits bit _ (0xc1 + bit * 2 + channel) _ _ h (inl (inr (inl (omega arith)))) (
              append-Fits bit n (0xc0 + bit * 2 + channel) _ plan h (inl (inr (inl (omega arith))))
                f)))))
      (weaken bit n (n + 4) plan (omega arith) f)

add_brightness-Fits :
    (bit n : ℕ) (dh2600 : Bool) (p : LedPatch) (plan : N76Plan)
    → bit ≤ 4
    → Fits bit n plan
    → Fits bit (n + 2) (add_brightness dh2600 p plan)
unfolding add_brightness
add_brightness-Fits bit n dh2600 p plan h f =
    if-both (Fits bit (n + 2)) (not dh2600 && has p patch_brightness)
      (weaken bit (n + 1 + 1) (n + 2) _ (omega arith) (
        append-Fits bit _ 0xe1 _ _ h (inr (inr (inr (inr refl))))
          (append-Fits bit n 0xe0 _ plan h (inr (inr (inr (inl refl)))) f)))
      (weaken bit n (n + 2) plan (omega arith) f)

add_blink-Fits :
    (bit n : ℕ) (p : LedPatch) (plan : N76Plan)
    → bit ≤ 4
    → Fits bit n plan
    → Fits bit (n + 1) (add_blink bit p plan)
unfolding add_blink
add_blink-Fits bit n p plan h f =
    let channel : ℕ = if p.value.color == 2 then 1 else 0 in
    let small : channel ≤ 1 = ground arith in
    let g = append-Fits bit n (0x50 + bit + channel) 1 plan h (inl (inl (omega arith))) f in
    if-both (Fits bit (n + 1)) (p.value.mode == mode_blink)
      (record { own = g.own; few = g.few; stopped = g.stopped })
      (weaken bit n (n + 1) plan (omega arith) f)

compose-Fits :
    (dh2600 : Bool) (bit : ℕ) (p : LedPatch) → bit ≤ 4 → Fits bit 11 (compose dh2600 bit p)
unfolding compose
compose-Fits dh2600 bit p h =
    let stopped = stop_effects-Fits bit h in
    let lit =
      append-Fits bit 9 0xa0 (u32 (p.value.color * 2 ^ bit)) _ h (inr (inl refl))
        (add_brightness-Fits bit 7 dh2600 p _ h (add_timing-Fits bit 3 p _ h stopped)) in
    let g =
      if-both (Fits bit 11) (p.value.mode == mode_off) (weaken bit 3 11 _ (omega arith) stopped)
        (add_blink-Fits bit 10 p _ h lit) in
    record { own = g.own; few = g.few; stopped = g.stopped }

n76_plan-parts :
    (profile : LedProfile) (id : ℕ) (patch : Option LedPatch) (plan : N76Plan)
    → n76_plan (some profile) id patch ≡ ok plan
    → (((is_dh2600 profile ≡ true) × (id ≤ 2)) ⊎ ((is_dxp480t profile ≡ true) × (id ≡ 0)))
      × (plan_accepted (is_dh2600 profile) id patch ≡ ok plan)
unfolding n76_plan
n76_plan-parts profile id patch plan e =
    elim (Result-cases (validate_target_patch (find_target id profile.leds none) patch)) [
      | inl accepted ↦ ground (arith, accepted)
      | inr refused ↦ ground (arith, refused.1)
    ]

plan_accepted-Fits :
    (dh2600 : Bool) (id : ℕ) (patch : Option LedPatch) (plan : N76Plan)
    → plan_accepted dh2600 id patch ≡ ok plan
    → Fits (bit_of id) 11 plan
unfolding plan_accepted
plan_accepted-Fits dh2600 id none plan e = ground arith
plan_accepted-Fits dh2600 id (some p) plan e =
    let q : compose dh2600 (bit_of id) p ≡ plan = ground arith in
    subst (Fits (bit_of id) 11) q (compose-Fits dh2600 (bit_of id) p (ground arith))

-- A plan is made only for the DH2600 with the LEDs 0 to 2 and for the DXP480T Plus with LED 0. It
-- has at most 11 writes, which fit the 12 places of the array; the first three stop the effects
-- of the lamp, and every write is of a byte to a register of that lamp or to one of the four
-- shared registers, with a pause of at most 10 ms.
pub n76_plan_sound :
    (profile : LedProfile) (id : ℕ) (patch : Option LedPatch) (plan : N76Plan)
    → n76_plan (some profile) id patch ≡ ok plan
    → (((is_dh2600 profile ≡ true) × (id ≤ 2)) ⊎ ((is_dxp480t profile ≡ true) × (id ≡ 0)))
      × Fits (bit_of id) 11 plan
n76_plan_sound profile id patch plan e =
    let parts = n76_plan-parts profile id patch plan e in
    (parts.0, plan_accepted-Fits (is_dh2600 profile) id patch plan parts.1)
