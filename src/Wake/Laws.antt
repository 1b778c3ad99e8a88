-- ===== src/Wake/Laws.antt =====
-- What an update of the alarm writes, and what it has done when it succeeds.
use ugreen_nas_hardware.Prelude.{
  ℕ, zero, suc, ap, ◌∙◌, ◌≡◌, ◌≢◌, ◌⊎◌, ◌<◌, ◌+◌, ◌%◌, inl, inr, refl, arith, false, List, ◌∷◌,
  Option, some, ◌==◌, if◌then◌else◌, Bytes, codes, Result, and_then, ok, err,
}
use ugreen_nas_hardware.Prelude.Decimal.{decimal}
use ugreen_nas_hardware.Wake.{
  World, check_clock, read_alarm, write_wakealarm, write_and_confirm, update_selected, update_alarm,
  rtc_wake_set, rtc_validate_epoch,
}

suc_not_zero : (n : ℕ) → (suc n == 0) ≡ false
suc_not_zero n = ground arith

module _ {Files : Type 0} (read_file : Bytes → Files → Result Bytes × Files)
    (write_file : Bytes → Bytes → Files → Result ℕ × Files) where
  writes-read_alarm :
      (path : Bytes) (w : World Files)
      → (read_alarm read_file write_file path w).1.writes ≡ w.writes
  unfolding read_alarm
  writes-read_alarm path w = ground arith

  check_clock-writes :
      (path : Bytes) (now : Option ℕ) (w : World Files)
      → (check_clock read_file write_file path now w).1.writes ≡ w.writes
  unfolding check_clock
  check_clock-writes path now w = grind (arith, writes-read_alarm)

  write_wakealarm-writes :
      (path value : Bytes) (w : World Files)
      → (write_wakealarm read_file write_file path value w).1.writes ≡ (path, value) ∷ w.writes
  unfolding write_wakealarm
  write_wakealarm-writes path value w = ground arith

  write_and_confirm-writes :
      (path value : Bytes) (epoch : ℕ) (w : World Files)
      → (write_and_confirm read_file write_file path value epoch w).1.writes
        ≡ (path, value) ∷ w.writes
  unfolding write_and_confirm
  write_and_confirm-writes path value epoch w =
      ground (arith, write_wakealarm-writes path value w, writes-read_alarm path)

  -- The last reading of the alarm was `epoch`.
  pub Confirmed : Bytes → ℕ → World Files → Type 0
  Confirmed path epoch w =
      (w' : World Files) × (read_alarm read_file write_file path w' ≡ (ok epoch, w))

  write_and_confirm-Confirmed :
      (path value : Bytes) (epoch : ℕ) (w : World Files)
      → (write_and_confirm read_file write_file path value epoch w).0 ≡ ok tt
      → Confirmed path epoch (write_and_confirm read_file write_file path value epoch w).1
  unfolding write_and_confirm Confirmed
  write_and_confirm-Confirmed path value epoch w e =
      ((write_wakealarm read_file write_file path value w).1, ground arith)

  -- How an update ends: an error after none of its writes, after the clearing one, or after both;
  -- success after all of them, and with the alarm read back as `epoch`.
  pub UpdateEnds : Bytes → ℕ → List (Bytes × Bytes) → Result (Unit {0}) × World Files → Type 0
  UpdateEnds path epoch before (err e, w) =
      (w.writes ≡ before)
      ⊎ (w.writes ≡ (path, codes "0") ∷ before)
      ⊎ ((epoch ≢ 0) × (w.writes ≡ (path, decimal epoch) ∷ (path, codes "0") ∷ before))
  UpdateEnds path epoch before (ok _, w) =
      (w.writes ≡ (
        if epoch == 0
        then (path, codes "0") ∷ before
        else (path, decimal epoch) ∷ (path, codes "0") ∷ before))
      × Confirmed path epoch w

  second_write :
      (path : Bytes) (epoch : ℕ) (before : List (Bytes × Bytes))
      (r : Result (Unit {0}) × World Files)
      → epoch ≢ 0
      → r.1.writes ≡ (path, decimal epoch) ∷ (path, codes "0") ∷ before
      → (r.0 ≡ ok tt → Confirmed path epoch r.1)
      → UpdateEnds path epoch before r
  unfolding UpdateEnds
  second_write path epoch before (err e, w) n h c = inr (inr (n, h))
  second_write path epoch before (ok _, w) n h c = (ground arith, c refl)

  checked-writes :
      (path : Bytes) (now : Option ℕ) (epoch : ℕ) (w : World Files)
      → (if epoch == 0 then (ok tt, w) else check_clock read_file write_file path now w).1.writes
        ≡ w.writes
  checked-writes path now zero w = refl
  checked-writes path now (suc n) w = rw (suc_not_zero n) (check_clock-writes path now w)

  set_part :
      (path : Bytes) (epoch : ℕ) (before : List (Bytes × Bytes)) (w : World Files)
      → w.writes ≡ (path, codes "0") ∷ before
      → Confirmed path 0 w
      → UpdateEnds path epoch before (
          if epoch == 0
          then (ok tt, w)
          else write_and_confirm read_file write_file path (decimal epoch) epoch w)
  unfolding UpdateEnds
  set_part path zero before w h c = (h, c)
  set_part path (suc n) before w h c =
      let value = decimal (suc n) in
      rw (suc_not_zero n) (
        second_write path (suc n) before
          (write_and_confirm read_file write_file path value (suc n) w) (omega arith)
          (write_and_confirm-writes path value (suc n) w ∙ ap (λ ws. (path, value) ∷ ws) h)
          (write_and_confirm-Confirmed path value (suc n) w))

  -- After the clearing write.
  clear_part :
      (path : Bytes) (epoch : ℕ) (before : List (Bytes × Bytes))
      (r : Result (Unit {0}) × World Files)
      → r.1.writes ≡ (path, codes "0") ∷ before
      → (r.0 ≡ ok tt → Confirmed path 0 r.1)
      → UpdateEnds path epoch before (
          and_then r (λ _ w.
            if epoch == 0
            then (ok tt, w)
            else write_and_confirm read_file write_file path (decimal epoch) epoch w))
  unfolding UpdateEnds
  clear_part path epoch before (err e, w) h c = inr (inl h)
  clear_part path epoch before (ok _, w) h c = set_part path epoch before w h (c refl)

  -- After the first reading of the alarm.
  read_part :
      (path : Bytes) (epoch : ℕ) (before : List (Bytes × Bytes)) (r : Result ℕ × World Files)
      → r.1.writes ≡ before
      → UpdateEnds path epoch before (
          and_then r (λ _ w₂.
            and_then (write_and_confirm read_file write_file path (codes "0") 0 w₂) (λ _ w₃.
              if epoch == 0
              then (ok tt, w₃)
              else write_and_confirm read_file write_file path (decimal epoch) epoch w₃)))
  unfolding UpdateEnds
  read_part path epoch before (err e, w) h = inl h
  read_part path epoch before (ok _, w) h =
      clear_part path epoch before (write_and_confirm read_file write_file path (codes "0") 0 w)
        (write_and_confirm-writes path (codes "0") 0 w ∙ ap (λ ws. (path, codes "0") ∷ ws) h)
        (write_and_confirm-Confirmed path (codes "0") 0 w)

  -- After the check of the clock.
  check_part :
      (path : Bytes) (epoch : ℕ) (before : List (Bytes × Bytes))
      (r : Result (Unit {0}) × World Files)
      → r.1.writes ≡ before
      → UpdateEnds path epoch before (
          and_then r (λ _ w₁. and_then (read_alarm read_file write_file path w₁) (λ _ w₂.
            and_then (write_and_confirm read_file write_file path (codes "0") 0 w₂) (λ _ w₃.
              if epoch == 0
              then (ok tt, w₃)
              else write_and_confirm read_file write_file path (decimal epoch) epoch w₃))))
  unfolding UpdateEnds
  check_part path epoch before (err e, w) h = inl h
  check_part path epoch before (ok _, w) h =
      read_part path epoch before (read_alarm read_file write_file path w)
        (writes-read_alarm path w ∙ h)

  -- However the files answer, an update of the alarm writes to the alarm alone, and at most its
  -- clearing and then the epoch. It succeeds only after all of its writes, and with the alarm read
  -- back as the epoch, where 0 is a cleared alarm.
  pub update_selected-UpdateEnds :
      (path : Bytes) (system_now : Option ℕ) (epoch : ℕ) (w : World Files)
      → UpdateEnds path epoch w.writes
          (update_selected read_file write_file path system_now epoch w)
  unfolding update_selected
  update_selected-UpdateEnds path now epoch w =
      check_part path epoch w.writes
        (if epoch == 0 then (ok tt, w) else check_clock read_file write_file path now w)
        (checked-writes path now epoch w)

  UpdateEnds-Confirmed :
      (path : Bytes) (epoch : ℕ) (before : List (Bytes × Bytes))
      (r : Result (Unit {0}) × World Files)
      → UpdateEnds path epoch before r
      → r.0 ≡ ok tt
      → Confirmed path epoch r.1
  unfolding UpdateEnds
  UpdateEnds-Confirmed path epoch before (err e, w) h k = ground arith
  UpdateEnds-Confirmed path epoch before (ok _, w) h k = h.1

  -- Where setting an alarm succeeds, the epoch is more than 60 seconds after the time and a multiple
  -- of the resolution, and the alarm was read back as it.
  pub rtc_wake_set-Confirmed :
      (resolution now epoch : ℕ) (path : Bytes) (system_now : Option ℕ) (w : World Files)
      → (rtc_wake_set read_file write_file
          (some resolution)
          (ok path)
          (some now)
          system_now
          epoch
          w).0
        ≡ ok tt
      → (now + 60 < epoch)
        × (epoch % resolution ≡ 0)
        × Confirmed path epoch
            (rtc_wake_set read_file write_file
              (some resolution)
              (ok path)
              (some now)
              system_now
              epoch
              w).1
  unfolding rtc_wake_set rtc_validate_epoch update_alarm
  rtc_wake_set-Confirmed resolution now epoch path system_now w e = ground (
    arith,
    UpdateEnds-Confirmed path epoch w.writes
        (update_selected read_file write_file path system_now epoch w)
        (update_selected-UpdateEnds path system_now epoch w),
  )
