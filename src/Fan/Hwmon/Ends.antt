-- ===== src/Fan/Hwmon/Ends.antt =====
-- The session on the hwmon device, fan/it8613_hwmon.c: what its opening leaves, and the lock
-- afterwards.
use ugreen_nas_hardware.Prelude.{
  ℕ, ◌≡◌, refl, false, List, Option, some, none, Bytes, Result, ok, err, and_then, Bool-cases, inl,
  inr, ltb, ◌||◌, ◌==◌, length, ebusy, String,
}
use ugreen_nas_hardware.Fan.Direct.{max_fans, min_manual_pwm}
use ugreen_nas_hardware.Fan.Hwmon.{
  HwmonWorld, HwmonChannel, HwmonCalls, hold_if_found, it8613_hwmon_open, it8613_hwmon_close,
  closing, incompatible_controller_owner, hwmon_read_fans, hwmon_set_manual_pwm, read_channels,
  set_channels,
}
use ugreen_nas_hardware.Fan.Hwmon.Find.{find_it8613_hwmon}

-- A failed opening leaves the files, the writes and the lock; a success is the device found.
unfoldable pub OpenEnds :
    {Files : Type 0} → HwmonCalls → HwmonWorld Files → Result Bytes × HwmonWorld Files → Type 0
OpenEnds calls w (err e, w') = (w'.writes ≡ w.writes) × (w'.lock_open ≡ false)
OpenEnds calls w (ok device, w') =
    (w'.writes ≡ w.writes)
    × (find_it8613_hwmon calls.root calls.entries ≡ ok device)
    × (incompatible_controller_owner calls.exists ≡ none)

module _ {Files : Type 0} (read_file : Bytes → Files → Result Bytes × Files)
    (write_file : Bytes → Bytes → Files → Result ℕ × Files) (wait : Files → Files) where
  held :
      (calls : HwmonCalls) (w : HwmonWorld Files) (found : Result Bytes)
      → find_it8613_hwmon calls.root calls.entries ≡ found
      → incompatible_controller_owner calls.exists ≡ none
      → OpenEnds calls w (hold_if_found read_file write_file wait found w)
  unfolding OpenEnds
  held calls w (err e) h free = (refl, refl)
  held calls w (ok device) h free = (refl, h, free)

  pub it8613_hwmon_open-OpenEnds :
      (calls : HwmonCalls) (w : HwmonWorld Files)
      → w.lock_open ≡ false
      → OpenEnds calls w (it8613_hwmon_open read_file write_file wait calls w)
  unfolding it8613_hwmon_open OpenEnds
  it8613_hwmon_open-OpenEnds calls w h =
      open_part calls w h (incompatible_controller_owner calls.exists) refl
    where
      locked :
          (calls : HwmonCalls) (w : HwmonWorld Files)
          → w.lock_open ≡ false
          → incompatible_controller_owner calls.exists ≡ none
          → (first second : Result (Unit {0}))
          → OpenEnds calls w (
              and_then
                (first, w)
                (λ _ w₁.
                  and_then
                    (second, w₁)
                    (λ _ w₂.
                      hold_if_found read_file write_file wait
                        (find_it8613_hwmon calls.root calls.entries)
                        w₂)))
      locked calls w h free (err e) second = (refl, h)
      locked calls w h free (ok _) (err e) = (refl, h)
      locked calls w h free (ok _) (ok _) =
          held calls w (find_it8613_hwmon calls.root calls.entries) refl free

      open_part :
          (calls : HwmonCalls) (w : HwmonWorld Files)
          → w.lock_open ≡ false
          → (owner : Option String) → incompatible_controller_owner calls.exists ≡ owner
          → OpenEnds calls w (elim owner [
            | some owner ↦ (err ebusy, w)
            | none ↦
                and_then
                  (calls.open_lock, w)
                  (λ _ w₁.
                    and_then
                      (calls.flock_lock, w₁)
                      (λ _ w₂.
                        hold_if_found read_file write_file wait
                          (find_it8613_hwmon calls.root calls.entries)
                          w₂))
          ])
      open_part calls w h (some owner) e = (refl, h)
      open_part calls w h none e = locked calls w h e calls.open_lock calls.flock_lock

  -- The work on an open session, and its end.
  closed :
      {A : Type 0} (calls : HwmonCalls) (w : HwmonWorld Files) (r : Result Bytes × HwmonWorld Files)
      (work : Bytes → HwmonWorld Files → Result A × HwmonWorld Files)
      → OpenEnds calls w r
      → (and_then r (λ device w'. closing read_file write_file wait (work device w'))).1.lock_open
        ≡ false
  unfolding OpenEnds closing it8613_hwmon_close
  closed calls w (err e, w') work h = h.1
  closed calls w (ok device, w') work h = refl

  -- From a lock that is free, manual PWM through the hwmon files ends with the lock free, whatever
  -- the files, the channels and the calls answer: after a success, a refusal or an error.
  pub hwmon_set_manual_pwm-frees :
      (calls : HwmonCalls) (channels : Option (List HwmonChannel)) (pwm : ℕ) (w : HwmonWorld Files)
      → w.lock_open ≡ false
      → (hwmon_set_manual_pwm read_file write_file wait calls channels pwm w).1.lock_open ≡ false
  unfolding hwmon_set_manual_pwm
  hwmon_set_manual_pwm-frees calls none pwm w h = h
  hwmon_set_manual_pwm-frees calls (some channels) pwm w h =
      elim (Bool-cases (length channels == 0 || ltb max_fans (length channels))) [
        | inl bad ↦ rw bad h
        | inr good ↦ elim (Bool-cases (ltb pwm min_manual_pwm)) [
          | inl low ↦ rw (good, low) h
          | inr enough ↦
              rw (good, enough)
                (closed calls w (it8613_hwmon_open read_file write_file wait calls w)
                  (λ device w'. set_channels read_file write_file wait device channels pwm w')
                  (it8613_hwmon_open-OpenEnds calls w h))
        ]
      ]

  pub hwmon_read_fans-frees :
      (calls : HwmonCalls) (channels : Option (List HwmonChannel)) (w : HwmonWorld Files)
      → w.lock_open ≡ false
      → (hwmon_read_fans read_file write_file wait calls channels w).1.lock_open ≡ false
  unfolding hwmon_read_fans
  hwmon_read_fans-frees calls none w h = h
  hwmon_read_fans-frees calls (some channels) w h =
      elim (Bool-cases (length channels == 0 || ltb max_fans (length channels))) [
        | inl bad ↦ rw bad h
        | inr good ↦ rw good (
            closed calls w (it8613_hwmon_open read_file write_file wait calls w)
              (λ device w'. read_channels read_file write_file wait device channels w')
              (it8613_hwmon_open-OpenEnds calls w h))
      ]
