-- ===== src/Power/Policy.antt =====
-- The AC-recovery policy through a whole session with the chip.
use ugreen_nas_hardware.Prelude.{
  ℕ, ◌≡◌, inl, inr, refl, ◌∙◌, true, not, ◌==◌, ◌||◌, Bool-cases, Result, ok, err,
}
use ugreen_nas_hardware.Superio.{
  Machine, It86xDevice, OpenCalls, sio_read, sio_write, it86x_close, it86x_open,
}
use ugreen_nas_hardware.Superio.Session.{
  IsReleased, IsOpen, OpenEnds, it86x_open-OpenEnds, it86x_close-IsReleased,
}
use ugreen_nas_hardware.Power.{
  StartupPolicy, startup_unknown, startup_off, startup_on, startup_restore, decode_policy,
  encode_policy, same_policy, read_opened, read_startup_policy, write_registers, set_opened,
  set_startup_policy,
}

pub same_policy_refl : (p : StartupPolicy) → same_policy p p ≡ true
same_policy_refl startup_unknown = refl
same_policy_refl startup_off = refl
same_policy_refl startup_on = refl
same_policy_refl startup_restore = refl

-- Port traffic keeps a session open.
IsOpen-same :
    {Chip : Type 0} (d : It86xDevice) (m m' : Machine Chip)
    → m'.lock_open ≡ m.lock_open
    → m'.sio_ports ≡ m.sio_ports
    → m'.hwm_ports ≡ m.hwm_ports
    → IsOpen d m
    → IsOpen d m'
IsOpen-same d m m' a b c h = record {
  locked = a ∙ h.locked;
  lock_known = h.lock_known;
  sio_opened = b ∙ h.sio_opened;
  hwm_opened = c ∙ h.hwm_opened;
  ports_noted = h.ports_noted;
  config_noted = h.config_noted;
  is_it8613 = h.is_it8613;
}

module _ {Chip : Type 0} (out_byte : ℕ → ℕ → Chip → Chip) (in_byte : ℕ → Chip → ℕ × Chip) where
  -- Closing after any register traffic releases everything.
  closed :
      (d : It86xDevice) (m m' : Machine Chip)
      → m'.lock_open ≡ m.lock_open
      → m'.sio_ports ≡ m.sio_ports
      → m'.hwm_ports ≡ m.hwm_ports
      → IsOpen d m
      → IsReleased (it86x_close out_byte in_byte d m')
  closed d m m' a b c h =
      let h' = IsOpen-same d m m' a b c h in
      (it86x_close-IsReleased out_byte in_byte d m' h'.lock_known.0 h'.config_noted h'.ports_noted
        h'.lock_known.1).0

  write_registers-IsReleased :
      (policy : StartupPolicy) (d : It86xDevice) (r : Result (ℕ × ℕ)) (m : Machine Chip)
      → IsOpen d m
      → IsReleased (write_registers out_byte in_byte policy d r m).1
  unfolding write_registers sio_read sio_write
  write_registers-IsReleased policy d (err e) m h = closed d m m refl refl refl h
  write_registers-IsReleased policy d (ok (f2, f4)) m h =
      let m₂ = sio_write out_byte in_byte 0xf4 f4 (sio_write out_byte in_byte 0xf2 f2 m) in
      let (f2', m₃) = sio_read out_byte in_byte 0xf2 m₂ in
      let (f4', m₄) = sio_read out_byte in_byte 0xf4 m₃ in
      let after_first = closed d m m₃ refl refl refl h in
      let after_second = closed d m m₄ refl refl refl h in
      elim (Bool-cases (f2' == f2)) [
        | inr wrong ↦ rw wrong after_first
        | inl right ↦
            elim (Bool-cases (not (f4' == f4) || not (same_policy (decode_policy f2 f4) policy))) [
              | inl bad ↦ rw (right, bad) after_second
              | inr good ↦ rw (right, good) after_second
            ]
      ]

  set_opened-IsReleased :
      (policy : StartupPolicy) (before : Machine Chip) (r : Result It86xDevice) (m : Machine Chip)
      → OpenEnds before (r, m)
      → IsReleased (set_opened out_byte in_byte policy (r, m)).1
  unfolding set_opened sio_read
  set_opened-IsReleased policy before (err e) m h = h.0
  set_opened-IsReleased policy before (ok d) m h =
      let (f2, m₂) = sio_read out_byte in_byte 0xf2 m in
      let (f4, m₃) = sio_read out_byte in_byte 0xf4 m₂ in
      write_registers-IsReleased policy d (encode_policy policy f2 f4) m₃
        (IsOpen-same d m m₃ refl refl refl h)

  read_opened-IsReleased :
      (before : Machine Chip) (r : Result It86xDevice) (m : Machine Chip)
      → OpenEnds before (r, m)
      → IsReleased (read_opened out_byte in_byte (r, m)).1
  unfolding read_opened sio_read
  read_opened-IsReleased before (err e) m h = h.0
  read_opened-IsReleased before (ok d) m h =
      closed d m (sio_read out_byte in_byte 0xf4 (sio_read out_byte in_byte 0xf2 m).1).1 refl refl
        refl h

  -- Whatever the system calls and the chip answer, a read and a change of the policy give back the
  -- lock and both port ranges, after each error as well.
  pub startup_policy-IsReleased :
      (calls : OpenCalls) (policy : StartupPolicy) (m : Machine Chip)
      → IsReleased m
      → IsReleased (read_startup_policy out_byte in_byte calls m).1
        × IsReleased (set_startup_policy out_byte in_byte calls policy m).1
  unfolding read_startup_policy set_startup_policy
  startup_policy-IsReleased calls policy m h =
      let (r, m') = it86x_open out_byte in_byte calls m in
      let ends = it86x_open-OpenEnds out_byte in_byte calls m h in
      (read_opened-IsReleased m r m' ends, set_opened-IsReleased policy m r m' ends)
