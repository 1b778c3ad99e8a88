-- ===== src/Fan/Direct/Write.antt =====
-- Manual PWM through the Super I/O chip: what is refused before any port access, and what is given
-- back afterwards.
use ugreen_nas_hardware.Prelude.{
  ℕ, ◌<◌, ◌≡◌, ◌⊎◌, inl, inr, refl, ◌∙◌, arith, false, List, [], ◌∷◌, Option, some, ◌==◌, bit_and,
  Bool-cases, Result, ok, err, Errno, einval, eperm, enotsup, Result-cases, ltb, ◌||◌, length,
}
use ugreen_nas_hardware.Superio.{
  Machine, It86xDevice, OpenCalls, it86x_open, it86x_close, hwm_read, hwm_write,
}
use ugreen_nas_hardware.Superio.Session.{
  IsReleased, IsOpen, OpenEnds, it86x_open-OpenEnds, it86x_close-IsReleased,
}
use ugreen_nas_hardware.Fan.Direct.{
  ids_valid, max_fans, DirectChannel, after_channel, all_supported, validate_mapping, check_request,
  read_channel, read_channels, read_opened, read_mapped, direct_read_fans, set_channel_manual_pwm,
  set_channels, set_opened, set_checked, direct_set_manual_pwm,
}

-- The resources of two machines are the same.
abbrev SameHeld : {Chip : Type 0} → Machine Chip → Machine Chip → Type 0
SameHeld m m' =
    (m'.lock_open ≡ m.lock_open) × (m'.sio_ports ≡ m.sio_ports) × (m'.hwm_ports ≡ m.hwm_ports)

SameHeld-trans : {Chip : Type 0} (a b c : Machine Chip) → SameHeld a b → SameHeld b c → SameHeld a c
SameHeld-trans a b c h k = (k.0 ∙ h.0, k.1 ∙ h.1, k.2 ∙ h.2)

validate_mapping-cases :
    (channels : List DirectChannel)
    → (validate_mapping (some channels) ≡ ok channels)
      ⊎ ((e : Errno) × (validate_mapping (some channels) ≡ err e))
unfolding validate_mapping
validate_mapping-cases channels =
    elim (Bool-cases (length channels == 0 || ltb max_fans (length channels))) [
      | inl bad ↦ inr (einval, rw bad)
      | inr good ↦ elim (Result-cases (ids_valid channels)) [
        | inl named ↦ inl (rw (good, named))
        | inr (e, unnamed) ↦ inr (e, rw (good, unnamed))
      ]
    ]

check_request_refuses :
    (channels : List DirectChannel) (pwm : ℕ)
    → (pwm < 40) ⊎ (all_supported channels ≡ false)
    → (e : Errno) × (check_request (some channels) pwm ≡ err e)
unfolding check_request
check_request_refuses channels pwm h = elim (validate_mapping-cases channels) [
  | inr (e, bad) ↦ (e, rw bad)
  | inl good ↦ elim (Bool-cases (ltb pwm 40)) [
    | inl low ↦ (eperm, rw (good, low))
    | inr enough ↦ elim h [
      | inl low ↦ absurd (ground arith)
      | inr unsupported ↦ (enotsup, rw (good, enough, unsupported))
    ]
  ]
]

module _ {Chip : Type 0} (out_byte : ℕ → ℕ → Chip → Chip) (in_byte : ℕ → Chip → ℕ × Chip) where
  closed :
      (d : It86xDevice) (m m' : Machine Chip)
      → SameHeld m m'
      → IsOpen d m
      → IsReleased (it86x_close out_byte in_byte d m')
  closed d m m' same h =
      (it86x_close-IsReleased out_byte in_byte d m' h.lock_known.0 h.config_noted h.ports_noted
        h.lock_known.1).0

  set_channel-SameHeld :
      (c : DirectChannel) (pwm : ℕ) (m : Machine Chip)
      → SameHeld m (set_channel_manual_pwm out_byte in_byte c pwm m).1
  unfolding set_channel_manual_pwm hwm_read hwm_write
  set_channel-SameHeld c pwm m =
      let (control, m₁) = hwm_read out_byte in_byte c.control_register m in
      let m₂ = hwm_write out_byte in_byte c.control_register (bit_and control 0x7f) m₁ in
      let (readback, m₃) = hwm_read out_byte in_byte c.control_register m₂ in
      let m₄ = hwm_write out_byte in_byte c.duty_register pwm m₃ in
      let duty = (hwm_read out_byte in_byte c.duty_register m₄).0 in
      elim (Bool-cases (bit_and readback 0x80 == 0)) [
        | inr stays_auto ↦ rw stays_auto (refl, refl, refl)
        | inl is_manual ↦ elim (Bool-cases (duty == pwm)) [
          | inr wrong ↦ rw (is_manual, wrong) (refl, refl, refl)
          | inl right ↦ rw (is_manual, right) (refl, refl, refl)
        ]
      ]

  set_channels-SameHeld :
      (cs : List DirectChannel) (pwm : ℕ) (m : Machine Chip)
      → SameHeld m (set_channels out_byte in_byte cs pwm m).1
  unfolding set_channels
  set_channels-SameHeld [] pwm m = (refl, refl, refl)
  set_channels-SameHeld (c ∷ cs) pwm m =
      by_result (set_channel_manual_pwm out_byte in_byte c pwm m).0
        (set_channel_manual_pwm out_byte in_byte c pwm m).1 (set_channel-SameHeld c pwm m)
        (λ m'. set_channels-SameHeld cs pwm m')
    where
      by_result :
          (r : Result (Unit {0})) (m' : Machine Chip)
          → SameHeld m m'
          → ((x : Machine Chip) → SameHeld x (set_channels out_byte in_byte cs pwm x).1)
          → SameHeld m
              (after_channel out_byte in_byte
                (r, m')
                (λ x. set_channels out_byte in_byte cs pwm x)).1
      by_result (err e) m' h rest = h
      by_result (ok _) m' h rest =
          SameHeld-trans m m' (set_channels out_byte in_byte cs pwm m').1 h (rest m')

  set_opened-IsReleased :
      (cs : List DirectChannel) (pwm : ℕ) (before : Machine Chip) (r : Result It86xDevice)
      (m : Machine Chip)
      → OpenEnds before (r, m)
      → IsReleased (set_opened out_byte in_byte cs pwm (r, m)).1
  unfolding set_opened
  set_opened-IsReleased cs pwm before (err e) m h = h.0
  set_opened-IsReleased cs pwm before (ok d) m h = closed d m _ (set_channels-SameHeld cs pwm m) h

  set_checked-IsReleased :
      (calls : OpenCalls) (pwm : ℕ) (r : Result (List DirectChannel)) (m : Machine Chip)
      → IsReleased m
      → IsReleased (set_checked out_byte in_byte calls pwm r m).1
  unfolding set_checked
  set_checked-IsReleased calls pwm (err e) m h = h
  set_checked-IsReleased calls pwm (ok cs) m h =
      set_opened-IsReleased cs pwm m (it86x_open out_byte in_byte calls m).0
        (it86x_open out_byte in_byte calls m).1 (it86x_open-OpenEnds out_byte in_byte calls m h)

  read_channel-SameHeld :
      (c : DirectChannel) (m : Machine Chip) → SameHeld m (read_channel out_byte in_byte c m).1
  unfolding read_channel hwm_read
  read_channel-SameHeld c m = elim (Bool-cases c.pwm_supported) [
    | inl supported ↦ rw supported (refl, refl, refl)
    | inr read_only ↦ rw read_only (refl, refl, refl)
  ]

  read_channels-SameHeld :
      (cs : List DirectChannel) (m : Machine Chip)
      → SameHeld m (read_channels out_byte in_byte cs m).1
  unfolding read_channels
  read_channels-SameHeld [] m = (refl, refl, refl)
  read_channels-SameHeld (c ∷ cs) m =
      let m₁ = (read_channel out_byte in_byte c m).1 in
      SameHeld-trans m m₁ (read_channels out_byte in_byte cs m₁).1 (read_channel-SameHeld c m)
        (read_channels-SameHeld cs m₁)

  read_mapped-IsReleased :
      (calls : OpenCalls) (r : Result (List DirectChannel)) (m : Machine Chip)
      → IsReleased m
      → IsReleased (read_mapped out_byte in_byte calls r m).1
  unfolding read_mapped
  read_mapped-IsReleased calls (err e) m h = h
  read_mapped-IsReleased calls (ok cs) m h =
      by_open (it86x_open out_byte in_byte calls m).0 (it86x_open out_byte in_byte calls m).1
        (it86x_open-OpenEnds out_byte in_byte calls m h)
    where
      by_open :
          (r : Result It86xDevice) (m' : Machine Chip)
          → OpenEnds m (r, m')
          → IsReleased (read_opened out_byte in_byte cs (r, m')).1
      by_open (err e) m' ends = ends.0
      by_open (ok d) m' ends =
          unfold read_opened in
          closed d m' (read_channels out_byte in_byte cs m').1 (read_channels-SameHeld cs m') ends

  -- For any mapping, PWM value, system calls and chip, a read of the fans and a change of their
  -- duty give back the lock and both port ranges, after each error as well.
  pub direct-IsReleased :
      (calls : OpenCalls) (channels : Option (List DirectChannel)) (pwm : ℕ) (m : Machine Chip)
      → IsReleased m
      → IsReleased (direct_read_fans out_byte in_byte calls channels m).1
        × IsReleased (direct_set_manual_pwm out_byte in_byte calls channels pwm m).1
  unfolding direct_read_fans direct_set_manual_pwm
  direct-IsReleased calls channels pwm m h = (
    read_mapped-IsReleased calls (validate_mapping channels) m h,
    set_checked-IsReleased calls pwm (check_request channels pwm) m h,
  )

  -- A duty below 40, or a mapping with a read-only channel, is refused before any port is touched:
  -- the result is an error, and chip, port writes and resources are as before.
  pub direct_set_manual_pwm_refuses :
      (calls : OpenCalls) (channels : List DirectChannel) (pwm : ℕ) (m : Machine Chip)
      → (pwm < 40) ⊎ (all_supported channels ≡ false)
      → (e : Errno) × (direct_set_manual_pwm out_byte in_byte calls (some channels) pwm m
          ≡ (err e, m))
  unfolding direct_set_manual_pwm set_checked
  direct_set_manual_pwm_refuses calls channels pwm m h =
      let (e, refused) = check_request_refuses channels pwm h in (e, rw refused)
