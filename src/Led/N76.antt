-- ===== src/Led/N76.antt =====
-- Plans of register writes for the N76, led/led_n76_protocol.c. The text for the user is left out.
pub mod Laws
use ugreen_nas_hardware.Prelude.{
  ℕ, ◌+◌, ◌*◌, ◌/◌, ◌%◌, ◌^◌, Bool, true, false, not, ◌&&◌, ◌||◌, List, [], ◌∷◌, ◌++◌, Option, none,
  some, ltb, ◌==◌, if◌then◌else◌, u8, u32, String, str_is, Bytes, Result, ok, err, ◌>>=◌, einval,
  enotsup,
}
use ugreen_nas_hardware.Led.Types.{
  LedValue, LedPatch, LedDescriptor, LedProfile, has, mode_off, mode_blink, mode_breath, patch_mode,
  patch_brightness, patch_timing, patch_color,
}
use ugreen_nas_hardware.Led.Patch.{validate_target_patch}

pub record N76Command : Type 0 where
  pub reg : ℕ
  pub value : ℕ
  pub settle_ms : ℕ

-- `commands` has `count` elements; the C array has room for 12.
pub record N76Plan : Type 0 where
  pub commands : List N76Command
  pub mode_registers : ℕ × ℕ
  pub expected_modes : ℕ × ℕ
  pub unverified_fields : ℕ

abbrev pub command : ℕ → ℕ → N76Command
command reg value = record {
  reg = u8 reg;
  value = u8 value;
  settle_ms = if (reg == 0xa0) || (reg == 0xb1) then 2 else 10;
}

abbrev pub append : N76Plan → ℕ → ℕ → N76Plan
append plan reg value = record plan { commands = plan.commands ++ command reg value ∷ [] }

-- The last LED with this number, or `found`.
unfoldable pub find_target : ℕ → List LedDescriptor → Option LedDescriptor → Option LedDescriptor
find_target id [] found = found
find_target id (led ∷ leds) found = find_target id leds (if led.id == id then some led else found)

-- Equality with a literal, of a string that may be NULL.
unfoldable pub names : Option Bytes → String → Bool
names none literal = false
names (some s) literal = str_is s literal

unfoldable pub is_dh2600 : LedProfile → Bool
is_dh2600 profile = names profile.product_name "DH2600" && names profile.profile_id "dh2600-n76"

unfoldable pub is_dxp480t : LedProfile → Bool
is_dxp480t profile =
    names profile.product_name "DXP480T Plus" && names profile.profile_id "dxp480t-n76"

-- The tests of the request after the target has accepted it.
unfoldable pub plan_refuses : Bool → LedPatch → Bool
plan_refuses dh2600 p =
    let v = p.value in
    not (has p patch_mode)
    || (v.mode == mode_breath)
    || ((v.mode == mode_off) && not (p.fields == patch_mode))
    || (not (v.mode == mode_off) && not (has p patch_color))
    || (dh2600 && has p patch_brightness && not (v.brightness == 1))
    || ((v.mode == mode_blink) && not (v.color == 1) && not (v.color == 2))

abbrev pub bit_of : ℕ → ℕ
bit_of id = if id == 1 then 4 else if id == 2 then 2 else 0

-- Both effects are stopped before the lamp is changed.
unfoldable pub stop_effects : ℕ → N76Plan
stop_effects bit =
    let plan : N76Plan = record {
      commands = [];
      mode_registers = (u8 (0x50 + bit), u8 (0x51 + bit));
      expected_modes = (0, 0);
      unverified_fields = 0;
    } in
    let plan = append plan (0x50 + bit) 0 in
    let plan = append plan (0x51 + bit) 0 in append plan 0xb1 (u32 (3 * 2 ^ bit))

unfoldable pub add_timing : ℕ → LedPatch → N76Plan → N76Plan
add_timing bit p plan =
    let v = p.value in
    if has p patch_timing
    then (let channel = if v.color == 2 then 2 else 0 in
        let plan = append plan (0xc0 + bit * 2 + channel) (v.on_ms % 256) in
        let plan = append plan (0xc1 + bit * 2 + channel) (v.on_ms / 2 ^ 8) in
        let plan = append plan (0xd0 + bit * 2 + channel) (v.off_ms % 256) in
        append plan (0xd1 + bit * 2 + channel) (v.off_ms / 2 ^ 8))
    else plan

unfoldable pub add_brightness : Bool → LedPatch → N76Plan → N76Plan
add_brightness dh2600 p plan =
    if not dh2600 && has p patch_brightness
    then append (append plan 0xe0 p.value.brightness) 0xe1 p.value.brightness
    else plan

unfoldable pub add_blink : ℕ → LedPatch → N76Plan → N76Plan
add_blink bit p plan =
    if p.value.mode == mode_blink
    then (let channel = if p.value.color == 2 then 1 else 0 in
        let plan = append plan (0x50 + bit + channel) 1 in
        record plan { expected_modes = if channel == 0 then (1, 0) else (0, 1) })
    else plan

-- `plan.unverified_fields = ...`
abbrev pub unverified : N76Plan → N76Plan
unverified plan = record plan { unverified_fields = 1 + 16 + 4 + 8 }

-- The writes for an accepted request.
unfoldable pub compose : Bool → ℕ → LedPatch → N76Plan
unfolding stop_effects add_timing add_brightness add_blink
compose dh2600 bit p =
    let stopped = stop_effects bit in
    let lit =
      append (add_brightness dh2600 p (add_timing bit p stopped)) 0xa0
        (u32 (p.value.color * 2 ^ bit)) in
    unverified (if p.value.mode == mode_off then stopped else add_blink bit p lit)

-- The plan after the target has accepted the request, which is not NULL then.
unfoldable pub plan_accepted : Bool → ℕ → Option LedPatch → Result N76Plan
unfolding plan_refuses compose
plan_accepted dh2600 id none = err einval
plan_accepted dh2600 id (some p) =
    if plan_refuses dh2600 p then err enotsup else ok (compose dh2600 (bit_of id) p)

-- `none` for NULL.
unfoldable pub n76_plan : Option LedProfile → ℕ → Option LedPatch → Result N76Plan
unfolding is_dh2600 is_dxp480t names find_target validate_target_patch plan_accepted
n76_plan none id patch = err enotsup
n76_plan (some profile) id patch =
    let dh2600 = is_dh2600 profile in
    if not (names profile.protocol "sysfs-n76")
      || (not dh2600 && not (is_dxp480t profile))
      || (dh2600 && ltb 2 id)
      || (not dh2600 && not (id == 0))
    then err enotsup
    else (validate_target_patch (find_target id profile.leds none) patch >>= λ _.
        plan_accepted dh2600 id patch)
