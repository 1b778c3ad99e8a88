-- ===== src/Led/Session/Laws/Meets.antt =====
-- What a successful `ugreenctl_led_apply` has read back from the MCU.
use ugreen_nas_hardware.Prelude.{
  ℕ, ◌≡◌, ◌∙◌, sym, ap, subst, arith, Bool, false, not, ◌||◌, ◌&&◌, Option, some, ◌==◌,
  if◌then◌else◌, ok, err, einval, eio,
}
use ugreen_nas_hardware.Prelude.Written.{and_then-ok, if-ok, guard-ok}
use ugreen_nas_hardware.Led.Types.{
  LedValue, LedPatch, has, patch_mode, patch_rgb, patch_brightness, patch_timing,
}
use ugreen_nas_hardware.Led.Patch.{validate_target_patch}
use ugreen_nas_hardware.Led.Session.{LedIo, LedSession, LedWorld, authorize_write, session_target}
use ugreen_nas_hardware.Led.Session.Read.{led_read, is_missing}
use ugreen_nas_hardware.Led.Session.Write.{
  differs, changes_of, apply_changes, held_or, apply_block, apply_n76, apply_authorized, led_apply,
}

-- A value with the requested fields put in.
unfoldable pub overlay : LedPatch → LedValue → LedValue
unfolding has
overlay p v = record v {
  mode = if has p patch_mode then p.value.mode else v.mode;
  brightness = if has p patch_brightness then p.value.brightness else v.brightness;
  red = if has p patch_rgb then p.value.red else v.red;
  green = if has p patch_rgb then p.value.green else v.green;
  blue = if has p patch_rgb then p.value.blue else v.blue;
  on_ms = if has p patch_timing then p.value.on_ms else v.on_ms;
  off_ms = if has p patch_timing then p.value.off_ms else v.off_ms;
}

differs-fields :
    (rgb brightness mode timing : Bool) (r r' g g' b b' l l' m m' n n' f f' : ℕ)
    → ((rgb && (not (r == r') || not (g == g') || not (b == b')))
        || (brightness && not (l == l'))
        || (mode && not (m == m'))
        || (timing && (not (n == n') || not (f == f'))))
      ≡ false
    → ((if mode then m' else m) ≡ m)
      × ((if brightness then l' else l) ≡ l)
      × ((if rgb then r' else r) ≡ r)
      × ((if rgb then g' else g) ≡ g)
      × ((if rgb then b' else b) ≡ b)
      × ((if timing then n' else n) ≡ n)
      × ((if timing then f' else f) ≡ f)
differs-fields rgb brightness mode timing r r' g g' b b' l l' m m' n n' f f' h = ground arith

differs-overlay : (p : LedPatch) (v : LedValue) → differs p v ≡ false → overlay p v ≡ v
unfolding differs overlay
differs-overlay p v h =
    let (h₁, h₂, h₃, h₄, h₅, h₆, h₇) =
      differs-fields (has p patch_rgb) (has p patch_brightness) (has p patch_mode)
        (has p patch_timing) v.red p.value.red v.green p.value.green v.blue p.value.blue
        v.brightness p.value.brightness v.mode p.value.mode v.on_ms p.value.on_ms v.off_ms
        p.value.off_ms h in
    cc

compared-ok :
    (p : LedPatch) (v value : LedValue)
    → (if differs p v then err eio else ok v) ≡ ok value
    → overlay p value ≡ value
compared-ok p v value h =
    let (same, read) = if-ok (differs p v) eio (ok v) value h in
    let here : v ≡ value = cc in subst (λ x. overlay p x ≡ x) here (differs-overlay p v same)

module _ {Mcu : Type 0} (io : LedIo Mcu) (s : LedSession) where
  apply_block-overlay :
      (id : ℕ) (p : LedPatch) (held : Option LedValue) (w : LedWorld Mcu) (value : LedValue)
      → (apply_block io s id p held w).0 ≡ ok value
      → overlay p value ≡ value
  unfolding apply_block
  apply_block-overlay id p held w value h =
      let (local, w₁, next₁, _) = and_then-ok (led_read io s id w) _ value h in
      let (readback, w₂, next₂, _) =
        and_then-ok (apply_changes io s id (changes_of p) (held_or held local) w₁) _ value
          (ap (λ r. r.0) (sym next₁) ∙ h) in
      compared-ok p readback value (ap (λ r. r.0) (sym next₂) ∙ ap (λ r. r.0) (sym next₁) ∙ h)

  -- On an MCU, a request that succeeds returns a value that has all that was asked for: putting the
  -- requested mode, brightness, color and durations in changes nothing.
  pub led_apply-overlay :
      (id : ℕ) (p : LedPatch) (held : Option LedValue) (w : LedWorld Mcu) (value : LedValue)
      → s.access.n76_direct ≡ false
      → (led_apply io s id (some p) held w).0 ≡ ok value
      → overlay p value ≡ value
  unfolding led_apply apply_authorized
  led_apply-overlay id p held w value mcu h =
      let (_, h₁) = guard-ok (is_missing (session_target s id)) einval w _ value h in
      let (_, w₁, next₁, _) =
        and_then-ok (validate_target_patch (session_target s id) (some p), w) _ value h₁ in
      let h₂ = ap (λ r. r.0) (sym next₁) ∙ h₁ in
      let (_, w₂, next₂, _) = and_then-ok (authorize_write io s w₁) _ value h₂ in
      let h₃ = ap (λ r. r.0) (sym next₂) ∙ h₂ in
      apply_block-overlay id p held w₂ value (
        ap
          (λ direct.
            (if direct then apply_n76 io s id (some p) w₂ else apply_block io s id p held w₂).0)
          (sym mcu)
        ∙ h₃)
