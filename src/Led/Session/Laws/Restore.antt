-- ===== src/Led/Session/Laws/Restore.antt =====
-- On the state of a LED after it was shown.
use ugreen_nas_hardware.Prelude.{
  ℕ, ◌≡◌, refl, subst, ap, sym, ◌∙◌, arith, Bool, true, false, ◌&&◌, ◌||◌, some, ltb, ◌==◌,
  if◌then◌else◌, Result, ok, err, and_then, einval, eio,
}
use ugreen_nas_hardware.Prelude.Written.{and_then-ok, guard-next}
use ugreen_nas_hardware.Led.Types.{LedValue, LedPatch, LedDescriptor}
use ugreen_nas_hardware.Led.Session.{LedIo, LedSession, LedWorld, authorize_write, session_target}
use ugreen_nas_hardware.Led.Session.Read.{led_read}
use ugreen_nas_hardware.Led.Session.Write.{led_apply}
use ugreen_nas_hardware.Led.Session.Identify.{
  same_state, restore_patch, restore_mode_patch, restored_mode, after_blink, blink_patch, apply_now,
  restore, check_restored, unless_failed, blink_and_restore, identify_rgb, identify_binary,
  identify_target, led_identify,
}

-- The seven fields of an RGB LED.
abbrev pub outputs : LedValue → ℕ × ℕ × ℕ × ℕ × ℕ × ℕ × ℕ
outputs v = (v.mode, v.brightness, v.red, v.green, v.blue, v.on_ms, v.off_ms)

all-same :
    (a a' b b' c c' d d' e e' f f' g g' : ℕ)
    → ((a == a') && (b == b') && (c == c') && (d == d') && (e == e') && (f == f') && (g == g'))
      ≡ true
    → (a ≡ a') × (b ≡ b') × (c ≡ c') × (d ≡ d') × (e ≡ e') × (f ≡ f') × (g ≡ g')
all-same a a' b b' c c' d d' e e' f f' g g' h = ground arith

same_state-outputs :
    (v original : LedValue) → same_state v original ≡ true → outputs v ≡ outputs original
unfolding same_state
same_state-outputs v o h =
    let (h₁, h₂, h₃, h₄, h₅, h₆, h₇) =
      all-same v.mode o.mode v.brightness o.brightness v.red o.red v.green o.green v.blue o.blue
        v.on_ms o.on_ms v.off_ms o.off_ms h in
    cc

granted :
    (test : Bool) → Path (Result (Unit {0})) (if test then ok tt else err eio) (ok tt) → test ≡ true
granted true h = refl
granted false h = cc

-- The last step of a restoration: a request that was applied and read back.
module _ {Mcu : Type 0} (io : LedIo Mcu) (s : LedSession) (cancelled : ℕ → Bool)
    (scratch : LedValue) (id : ℕ) where
  -- `w` is directly after a request that was applied, which read `value` back.
  unfoldable pub IsApplied : LedValue → LedWorld Mcu → Type 0
  IsApplied value w =
      (p : LedPatch) × (before : LedWorld Mcu) × (led_apply io s id (some p) (some scratch) before
        ≡ (ok value, w))

  IsApplied-if :
      (test : Bool) (current value : LedValue) (p p' : LedPatch) (w₀ w₁ w : LedWorld Mcu)
      → led_apply io s id (some p) (some scratch) w₀ ≡ (ok current, w₁)
      → (if test then (ok current, w₁) else led_apply io s id (some p') (some scratch) w₁)
        ≡ (ok value, w)
      → IsApplied value w
  unfolding IsApplied
  IsApplied-if true current value p p' w₀ w₁ w h k = (p, w₀, h ∙ k)
  IsApplied-if false current value p p' w₀ w₁ w h k = (p', w₁, k)

  restore-IsApplied :
      (original value : LedValue) (w w' : LedWorld Mcu)
      → restore io s cancelled scratch id original w ≡ (ok value, w')
      → IsApplied value w'
  unfolding restore
  restore-IsApplied original value w w' h =
      let (current, w₁, next, first) =
        and_then-ok (apply_now io s cancelled scratch id (restore_patch original) w) _ value
          (ap (λ r. r.0) h) in
      IsApplied-if (restored_mode original == original.mode) current value (restore_patch original)
        (restore_mode_patch original) w w₁ w' first (sym next ∙ h)

  -- A LED with `original` was restored.
  unfoldable pub IsRestored : LedValue → LedWorld Mcu → Type 0
  unfolding IsApplied
  IsRestored original w =
      (value : LedValue) × IsApplied value w × (outputs value ≡ outputs original)

  compared-IsRestored :
      (original value : LedValue) (w : LedWorld Mcu)
      → IsApplied value w
      → Path (Result (Unit {0})) (if same_state value original then ok tt else err eio) (ok tt)
      → IsRestored original w
  unfolding IsRestored
  compared-IsRestored original value w h k =
      (value, h, same_state-outputs value original (granted (same_state value original) k))

  check_restored-IsRestored :
      (original : LedValue) (r : Result LedValue × LedWorld Mcu)
      → ((value : LedValue) (w : LedWorld Mcu) → r ≡ (ok value, w) → IsApplied value w)
      → (check_restored original r).0 ≡ ok tt
      → IsRestored original (check_restored original r).1
  unfolding check_restored
  check_restored-IsRestored original (err e, w) applied h = cc
  check_restored-IsRestored original (ok value, w) applied h =
      compared-IsRestored original value w (applied value w refl) h

  unless_failed-world :
      {A : Type 0} (result : Result A) (r : Result (Unit {0}) × LedWorld Mcu)
      → (unless_failed result r).0 ≡ ok tt
      → (r.0 ≡ ok tt) × ((unless_failed result r).1 ≡ r.1)
  unless_failed-world result (err e, w) h = cc
  unless_failed-world (err e) (ok _, w) h = cc
  unless_failed-world (ok a) (ok _, w) h = (refl, refl)

  blink_and_restore-IsRestored :
      (seconds : ℕ) (original : LedValue) (w : LedWorld Mcu)
      → (blink_and_restore io s cancelled scratch id seconds original w).0 ≡ ok tt
      → IsRestored original (blink_and_restore io s cancelled scratch id seconds original w).1
  unfolding blink_and_restore
  blink_and_restore-IsRestored seconds original w h =
      let blinked = apply_now io s cancelled scratch id blink_patch w in
      let after = after_blink io s cancelled scratch seconds blinked in
      let restored = restore io s cancelled scratch id original after in
      let (done, world) = unless_failed-world blinked.0 (check_restored original restored) h in
      subst (IsRestored original) (sym world) (
        check_restored-IsRestored original restored
          (λ value w' e. restore-IsApplied original value after w' e) done)

  identify_rgb-IsRestored :
      (seconds : ℕ) (w : LedWorld Mcu)
      → (identify_rgb io s cancelled scratch id seconds w).0 ≡ ok tt
      → (original : LedValue) × (w₁ : LedWorld Mcu) × (led_read io s id w ≡ (ok original, w₁))
        × IsRestored original (identify_rgb io s cancelled scratch id seconds w).1
  unfolding identify_rgb
  identify_rgb-IsRestored seconds w h =
      let (original, w₁, next, first) = and_then-ok (led_read io s id w) _ tt h in
      let done = ap (λ r. r.0) (sym next) ∙ h in
      (
        original,
        w₁,
        first,
        subst (λ r. IsRestored original r.1) (sym next)
            (blink_and_restore-IsRestored seconds original w₁ done),
      )

  -- Showing which LED an RGB LED is, when it reports success, has read the state of the LED directly
  -- after the authorization, before it blinked, and its last action is a request that was applied and
  -- whose readback has that state, in the mode, the brightness, the color and the durations.
  pub led_identify-IsRestored :
      (seconds : ℕ) (led : LedDescriptor) (w : LedWorld Mcu)
      → session_target s id ≡ some led
      → led.rgb ≡ true
      → (led_identify io s cancelled scratch id seconds w).0 ≡ ok tt
      → (original : LedValue) × (w₁ : LedWorld Mcu) × (led_read io s id (authorize_write io s w).1
          ≡ (ok original, w₁))
        × IsRestored original (led_identify io s cancelled scratch id seconds w).1
  unfolding led_identify
  led_identify-IsRestored seconds led w target rgb h =
      let granted_next =
        guard-next (ltb seconds 1 || ltb 60 seconds) einval w
          (and_then (authorize_write io s w)
            (λ _ w₁. identify_target io s cancelled scratch (session_target s id) id seconds w₁))
          tt h in
      let h₁ = ap (λ r. r.0) (sym granted_next) ∙ h in
      let (_, w₁, next, first) = and_then-ok (authorize_write io s w) _ tt h₁ in
      let here =
        ap (λ t. identify_target io s cancelled scratch t id seconds w₁) target
        ∙ ap
            (λ b.
              if b
              then identify_rgb io s cancelled scratch id seconds w₁
              else identify_binary io s cancelled scratch id seconds w₁)
            rgb in
      let path = granted_next ∙ next ∙ here in
      subst
        (λ r.
          (original : LedValue) × (w₂ : LedWorld Mcu) × (led_read io s id (authorize_write io s w).1
            ≡ (ok original, w₂))
          × IsRestored original r.1)
        (sym path)
        (subst
          (λ x.
            (original : LedValue) × (w₂ : LedWorld Mcu) × (led_read io s id x ≡ (ok original, w₂))
            × IsRestored original (identify_rgb io s cancelled scratch id seconds w₁).1)
          (sym (ap (λ r. r.1) first))
          (identify_rgb-IsRestored seconds w₁ (ap (λ r. r.0) (sym path) ∙ h)))
