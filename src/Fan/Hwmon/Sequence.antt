-- ===== src/Fan/Hwmon/Sequence.antt =====
-- What manual PWM through the hwmon files writes, fan/it8613_hwmon.c, and in which order.
use ugreen_nas_hardware.Prelude.{
  ℕ, ◌≡◌, refl, ap, ◌∙◌, arith, false, List, [], ◌∷◌, ◌++◌, some, ◌==◌, length, Bytes, String,
  codes, Result, ok, err, and_then, ◌||◌, if◌then◌else◌, einval, eperm, ltb, Bool-cases, inl, inr,
}
use ugreen_nas_hardware.Prelude.Decimal.{decimal}
use ugreen_nas_hardware.Prelude.Written.{
  Wrote, Wrote-all, Wrote-nothing, Wrote-refused, Wrote-and_then,
}
use ugreen_nas_hardware.Fan.Direct.{max_fans, min_manual_pwm}
use ugreen_nas_hardware.Fan.Hwmon.{
  HwmonWorld, HwmonChannel, HwmonCalls, read_unsigned_file, write_unsigned_file, read_again,
  write_and_verify, channel_node_path, set_channel_manual_pwm, set_channels, closing,
  it8613_hwmon_open, it8613_hwmon_close, hwmon_set_manual_pwm,
}
use ugreen_nas_hardware.Fan.Hwmon.Ends.{OpenEnds, it8613_hwmon_open-OpenEnds}
use ugreen_nas_hardware.Fan.Hwmon.Find.{build_path, find_it8613_hwmon}

-- A node of the device.
abbrev node : Bytes → String → ℕ → String → Bytes
node device before index behind = device ++ b'/' ∷ (codes before ++ decimal index ++ codes behind)

abbrev line : ℕ → Bytes
line value = decimal value ++ b'\n' ∷ []

-- One channel: manual mode, then the duty.
abbrev channel_plan : Bytes → HwmonChannel → ℕ → List (Bytes × Bytes)
channel_plan device c pwm =
    (node device "pwm" c.pwm_index "_enable", line 1)
    ∷ (node device "pwm" c.pwm_index "", line pwm)
    ∷ []

pub plan : Bytes → List HwmonChannel → ℕ → List (Bytes × Bytes)
plan device [] pwm = []
plan device (c ∷ cs) pwm = channel_plan device c pwm ++ plan device cs pwm

-- The plan for the device that the directory holds.
pub plan_found : Result Bytes → List HwmonChannel → ℕ → List (Bytes × Bytes)
plan_found (err e) channels pwm = []
plan_found (ok device) channels pwm = plan device channels pwm

abbrev pub writes_of : {Files : Type 0} → HwmonWorld Files → List (Bytes × Bytes)
writes_of w = w.writes

-- A path that may be an error, with the name it has when it is none.
Wrote-at :
    {Files A : Type 0} (before planned : List (Bytes × Bytes)) (path : Result Bytes)
    (expected : Bytes) (w : HwmonWorld Files)
    (next : Bytes → HwmonWorld Files → Result A × HwmonWorld Files)
    → ((p : Bytes) → path ≡ ok p → p ≡ expected)
    → w.writes ≡ before
    → (w.writes ≡ before → Wrote writes_of before planned (next expected w))
    → Wrote writes_of before planned (and_then (path, w) next)
Wrote-at {A = A} before planned (err e) expected w next named h k =
    Wrote-refused writes_of A before planned e w h
Wrote-at before planned (ok p) expected w next named h k = rw (named p refl) (k h)

channel_node_path-node :
    (device : Bytes) (before : String) (index : ℕ) (behind : String) (p : Bytes)
    → channel_node_path device before index behind ≡ ok p
    → p ≡ node device before index behind
unfolding channel_node_path build_path
channel_node_path-node device before index behind p h = ground arith

module _ {Files : Type 0} (read_file : Bytes → Files → Result Bytes × Files)
    (write_file : Bytes → Bytes → Files → Result ℕ × Files) (wait : Files → Files) where
  read_unsigned_file-writes :
      (path : Bytes) (w : HwmonWorld Files)
      → (read_unsigned_file read_file write_file wait path w).1.writes ≡ w.writes
  unfolding read_unsigned_file
  read_unsigned_file-writes path w = ground arith

  write_unsigned_file-writes :
      (path : Bytes) (value : ℕ) (w : HwmonWorld Files)
      → (write_unsigned_file read_file write_file wait path value w).1.writes
        ≡ w.writes ++ (path, line value) ∷ []
  unfolding write_unsigned_file
  write_unsigned_file-writes path value w = ground arith

  read_again-writes :
      (path : Bytes) (value : ℕ) (w : HwmonWorld Files)
      → (read_again read_file write_file wait path value w).1.writes ≡ w.writes
  unfolding read_again
  read_again-writes path value w =
      ground (arith, read_unsigned_file-writes path (record w { files = wait w.files }))

  verify_part :
      (path : Bytes) (value : ℕ) (before : List (Bytes × Bytes)) (r : Result ℕ × HwmonWorld Files)
      → r.1.writes ≡ before
      → (and_then r (λ actual w₂.
          if actual == value
          then (ok tt, w₂)
          else read_again read_file write_file wait path value w₂)).1.writes
        ≡ before
  verify_part path value before (err e, w) h = h
  verify_part path value before (ok actual, w) h = elim (Bool-cases (actual == value)) [
    | inl same ↦ rw same h
    | inr other ↦ rw other (read_again-writes path value w ∙ h)
  ]

  write_part :
      (path : Bytes) (value : ℕ) (before : List (Bytes × Bytes))
      (r : Result (Unit {0}) × HwmonWorld Files)
      → r.1.writes ≡ before ++ (path, line value) ∷ []
      → (and_then r (λ _ w₁.
          and_then (read_unsigned_file read_file write_file wait path w₁) (λ actual w₂.
            if actual == value
            then (ok tt, w₂)
            else read_again read_file write_file wait path value w₂))).1.writes
        ≡ before ++ (path, line value) ∷ []
  write_part path value before (err e, w) h = h
  write_part path value before (ok _, w) h =
      verify_part path value (before ++ (path, line value) ∷ [])
        (read_unsigned_file read_file write_file wait path w) (read_unsigned_file-writes path w ∙ h)

  -- The one write stands whether the verification agrees or not.
  write_and_verify-writes :
      (path : Bytes) (value : ℕ) (w : HwmonWorld Files)
      → (write_and_verify read_file write_file wait path value w).1.writes
        ≡ w.writes ++ (path, line value) ∷ []
  unfolding write_and_verify
  write_and_verify-writes path value w =
      write_part path value w.writes (write_unsigned_file read_file write_file wait path value w)
        (write_unsigned_file-writes path value w)

  Wrote-verify :
      (path : Bytes) (value : ℕ) (before : List (Bytes × Bytes)) (w : HwmonWorld Files)
      → w.writes ≡ before
      → Wrote writes_of before
          ((path, line value) ∷ [])
          (write_and_verify read_file write_file wait path value w)
  Wrote-verify path value before w h =
      Wrote-all writes_of before ((path, line value) ∷ [])
        (write_and_verify read_file write_file wait path value w)
        (write_and_verify-writes path value w ∙ ap (λ l. l ++ (path, line value) ∷ []) h)

  Wrote-channel :
      (device : Bytes) (c : HwmonChannel) (pwm : ℕ) (before : List (Bytes × Bytes))
      (w : HwmonWorld Files)
      → w.writes ≡ before
      → Wrote writes_of before
          (channel_plan device c pwm)
          (set_channel_manual_pwm read_file write_file wait device c pwm w)
  unfolding set_channel_manual_pwm
  Wrote-channel device c pwm before w h =
      let enable_node = node device "pwm" c.pwm_index "_enable" in
      let first = (enable_node, line 1) ∷ [] in
      let duty_node = node device "pwm" c.pwm_index "" in
      Wrote-at before (channel_plan device c pwm)
        (channel_node_path device "pwm" c.pwm_index "_enable") enable_node w _
        (channel_node_path-node device "pwm" c.pwm_index "_enable") h
        (λ h₁.
          Wrote-and_then writes_of before first ((duty_node, line pwm) ∷ [])
            (write_and_verify read_file write_file wait enable_node 1 w) _
            (Wrote-verify enable_node 1 before w h₁)
            (λ _ w₂ h₂.
              Wrote-at (before ++ first) ((duty_node, line pwm) ∷ [])
                (channel_node_path device "pwm" c.pwm_index "") duty_node w₂ _
                (channel_node_path-node device "pwm" c.pwm_index "") h₂
                (Wrote-verify duty_node pwm (before ++ first) w₂)))

  Wrote-channels :
      (device : Bytes) (channels : List HwmonChannel) (pwm : ℕ) (before : List (Bytes × Bytes))
      (w : HwmonWorld Files)
      → w.writes ≡ before
      → Wrote writes_of before
          (plan device channels pwm)
          (set_channels read_file write_file wait device channels pwm w)
  unfolding set_channels plan
  Wrote-channels device [] pwm before w h = Wrote-nothing writes_of before (ok tt, w) h
  Wrote-channels device (c ∷ cs) pwm before w h =
      Wrote-and_then writes_of before (channel_plan device c pwm) (plan device cs pwm)
        (set_channel_manual_pwm read_file write_file wait device c pwm w) _
        (Wrote-channel device c pwm before w h)
        (λ _ w₁ h₁. Wrote-channels device cs pwm (before ++ channel_plan device c pwm) w₁ h₁)

  Wrote-closing :
      {A : Type 0} (before planned : List (Bytes × Bytes)) (r : Result A × HwmonWorld Files)
      → Wrote writes_of before planned r
      → Wrote writes_of before planned (closing read_file write_file wait r)
  unfolding Wrote closing it8613_hwmon_close
  Wrote-closing before planned (err e, w) h = h
  Wrote-closing before planned (ok a, w) h = h

  Wrote-open :
      (calls : HwmonCalls) (channels : List HwmonChannel) (pwm : ℕ) (w : HwmonWorld Files)
      (r : Result Bytes × HwmonWorld Files)
      → OpenEnds calls w r
      → Wrote writes_of w.writes
          (plan_found (find_it8613_hwmon calls.root calls.entries) channels pwm)
          (and_then r (λ device w'.
            closing read_file write_file wait
              (set_channels read_file write_file wait device channels pwm w')))
  unfolding OpenEnds plan_found
  Wrote-open calls channels pwm w (err e, w') h =
      Wrote-refused writes_of Unit w.writes
        (plan_found (find_it8613_hwmon calls.root calls.entries) channels pwm) e w' h.0
  Wrote-open calls channels pwm w (ok device, w') (h, found, free) = rw found (
      Wrote-closing w.writes (plan device channels pwm)
        (set_channels read_file write_file wait device channels pwm w')
        (Wrote-channels device channels pwm w.writes w' h))

  -- Manual PWM through the hwmon files, from a lock that is free: on success the writes are, for
  -- each channel of the request in its order, `1` to `pwmN_enable` and then the duty to `pwmN`,
  -- below the one device that was found, and no others. On any error they are a beginning of that
  -- sequence, and none where no device was found.
  pub hwmon_set_manual_pwm-Wrote :
      (calls : HwmonCalls) (channels : List HwmonChannel) (pwm : ℕ) (w : HwmonWorld Files)
      → w.lock_open ≡ false
      → Wrote writes_of w.writes
          (plan_found (find_it8613_hwmon calls.root calls.entries) channels pwm)
          (hwmon_set_manual_pwm read_file write_file wait calls (some channels) pwm w)
  unfolding hwmon_set_manual_pwm
  hwmon_set_manual_pwm-Wrote calls channels pwm w h =
      let planned = plan_found (find_it8613_hwmon calls.root calls.entries) channels pwm in
      elim (Bool-cases (length channels == 0 || ltb max_fans (length channels))) [
        | inl bad ↦ rw bad (Wrote-refused writes_of Unit w.writes planned einval w refl)
        | inr good ↦ elim (Bool-cases (ltb pwm min_manual_pwm)) [
          | inl low ↦ rw (good, low) (Wrote-refused writes_of Unit w.writes planned eperm w refl)
          | inr enough ↦
              rw (good, enough)
                (Wrote-open calls channels pwm w
                  (it8613_hwmon_open read_file write_file wait calls w)
                  (it8613_hwmon_open-OpenEnds read_file write_file wait calls w h))
        ]
      ]
