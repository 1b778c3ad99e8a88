-- ===== src/Power/RoundTrip.antt =====
-- On a chip whose ports reach its registers, a policy that was set is the policy that is read.
use ugreen_nas_hardware.Prelude.{
  ℕ, ◌<◌, ◌≡◌, ◌≢◌, ◌⊎◌, Bool, inl, inr, refl, sym, ap, ◌∙◌, arith, true, ◌==◌, ==_iff,
  if◌then◌else◌, u8, Result, ok, err,
}
use mathlib.Core.Path.{fun_ext, subst}
use ugreen_nas_hardware.Superio.{Machine, It86xDevice, OpenCalls, sio_read, sio_write, it86x_open}
use ugreen_nas_hardware.Superio.Registers.{
  IsRegisterFile, OpenRegisters, reg-sio_read, config-sio_read, sio_read_lem, sio_write_lem,
  reg-it86x_close, it86x_open-OpenRegisters,
}
use ugreen_nas_hardware.Power.{
  StartupPolicy, startup_unknown, decode_policy, encode_policy, same_policy, read_opened,
  read_startup_policy, write_registers, set_opened, set_startup_policy,
}
use ugreen_nas_hardware.Power.Bits.{IsEncoded, EncodesTo, encode_policy-EncodesTo}
use ugreen_nas_hardware.Power.Policy.{same_policy_refl}

-- The registers hold the policy, its other bits are as before, and so is every register but the
-- two of the policy, the selection of the logical device and the one that leaves the configuration.
pub record IsStored (policy : StartupPolicy) (before after : ℕ → ℕ) : Type 0 where
  pub encoded : IsEncoded policy (before 0xf2) (before 0xf4) (after 0xf2) (after 0xf4)
  pub others : (k : ℕ) → 2 ≢ k → 0xf2 ≢ k → 0xf4 ≢ k → after k ≡ before k

module _ {Chip : Type 0} (out_byte : ℕ → ℕ → Chip → Chip) (in_byte : ℕ → Chip → ℕ × Chip)
    (config : Chip → Bool) (selected : Chip → ℕ) (reg : Chip → ℕ → ℕ)
    (file : IsRegisterFile out_byte in_byte config selected reg) where
  -- In the configuration mode, with the hardware monitor selected.
  abbrev IsReady : Machine Chip → Type 0
  IsReady m = (config m.chip ≡ true) × (reg m.chip 7 ≡ 4)

  reads : (r : ℕ) (m : Machine Chip) → IsReady m → (sio_read out_byte in_byte r m).0 ≡ reg m.chip r
  reads r m (c, h) = sio_read_lem out_byte in_byte config selected reg file r m c (inr h)

  keeps : (r k : ℕ) (m : Machine Chip) → reg (sio_read out_byte in_byte r m).1.chip k ≡ reg m.chip k
  keeps r k m = reg-sio_read out_byte in_byte config selected reg file r k m

  reads-IsReady : (r : ℕ) (m : Machine Chip) → IsReady m → IsReady (sio_read out_byte in_byte r m).1
  reads-IsReady r m (c, h) =
      (config-sio_read out_byte in_byte config selected reg file r m c, keeps r 7 m ∙ h)

  writes :
      (r v k : ℕ) (m : Machine Chip)
      → IsReady m
      → (r ≡ 0xf2) ⊎ (r ≡ 0xf4)
      → (config (sio_write out_byte in_byte r v m).chip ≡ true)
        × (reg (sio_write out_byte in_byte r v m).chip k ≡ (if r == k then u8 v else reg m.chip k))
  writes r v k m (c, h) w =
      sio_write_lem out_byte in_byte config selected reg file r v k m c (inr h) (inr w)

  writes-IsReady :
      (r v : ℕ) (m : Machine Chip)
      → IsReady m
      → (r ≡ 0xf2) ⊎ (r ≡ 0xf4)
      → IsReady (sio_write out_byte in_byte r v m)
  writes-IsReady r v m h w = let (on, seven) = writes r v 7 m h w in (on, ground arith)

  -- The two bytes are written, read back right and left in place.
  write_registers_lem :
      (policy : StartupPolicy) (d : It86xDevice) (f2 f4 : ℕ) (m : Machine Chip)
      → IsReady m
      → f2 < 256
      → f4 < 256
      → decode_policy f2 f4 ≡ policy
      → ((write_registers out_byte in_byte policy d (ok (f2, f4)) m).0 ≡ ok tt)
        × ((k : ℕ)
            → 2 ≢ k
            → reg (write_registers out_byte in_byte policy d (ok (f2, f4)) m).1.chip k
              ≡ (if 0xf4 == k then f4 else if 0xf2 == k then f2 else reg m.chip k))
  unfolding write_registers
  write_registers_lem policy d f2 f4 m h a b e =
      let m₁ = sio_write out_byte in_byte 0xf2 f2 m in
      let m₂ = sio_write out_byte in_byte 0xf4 f4 m₁ in
      let m₃ = (sio_read out_byte in_byte 0xf2 m₂).1 in
      let m₄ = (sio_read out_byte in_byte 0xf4 m₃).1 in
      let h₁ = writes-IsReady 0xf2 f2 m h (inl refl) in
      let h₂ = writes-IsReady 0xf4 f4 m₁ h₁ (inr refl) in
      let h₃ = reads-IsReady 0xf2 m₂ h₂ in
      let at_f4 = λ (k : ℕ). (writes 0xf4 f4 k m₁ h₁ (inr refl)).1 in
      let at_f2 = λ (k : ℕ). (writes 0xf2 f2 k m h (inl refl)).1 in
      let first : (sio_read out_byte in_byte 0xf2 m₂).0 ≡ f2 =
        ground (arith, reads 0xf2 m₂ h₂, at_f4 0xf2, at_f2 0xf2) in
      let second : (sio_read out_byte in_byte 0xf4 m₃).0 ≡ f4 =
        ground (arith, reads 0xf4 m₃ h₃, keeps 0xf2 0xf4 m₂, at_f4 0xf4) in
      let right : ((sio_read out_byte in_byte 0xf2 m₂).0 == f2) ≡ true = (==_iff _ _).1 first in
      let right' : ((sio_read out_byte in_byte 0xf4 m₃).0 == f4) ≡ true = (==_iff _ _).1 second in
      let same : same_policy (decode_policy f2 f4) policy ≡ true = rw e (same_policy_refl policy) in
      rw (right, right', same)
        (
          refl,
          λ k ne.
              reg-it86x_close out_byte in_byte config selected reg file d k m₄
                (reads-IsReady 0xf4 m₃ h₃).0 ne
              ∙ ground (arith, keeps 0xf4 k m₃, keeps 0xf2 k m₂, at_f4 k, at_f2 k),
        )

  write_encoded :
      (policy : StartupPolicy) (d : It86xDevice) (m : Machine Chip) (r : Result (ℕ × ℕ))
      → IsReady m
      → policy ≢ startup_unknown
      → EncodesTo policy (reg m.chip 0xf2) (reg m.chip 0xf4) r
      → ((write_registers out_byte in_byte policy d r m).0 ≡ ok tt)
        × IsStored policy (reg m.chip) (reg (write_registers out_byte in_byte policy d r m).1.chip)
  write_encoded policy d m (err e) h known enc = absurd (known enc)
  write_encoded policy d m (ok (g2, g4)) h known enc =
      let (done, after) =
        write_registers_lem policy d g2 g4 m h enc.f2_byte enc.f4_byte enc.decoded in
      let at_f2 : reg (write_registers out_byte in_byte policy d (ok (g2, g4)) m).1.chip 0xf2 ≡ g2 =
        after 0xf2 (omega arith) in
      let at_f4 : reg (write_registers out_byte in_byte policy d (ok (g2, g4)) m).1.chip 0xf4 ≡ g4 =
        after 0xf4 (omega arith) in
      (
        done,
        record { encoded = rw (at_f2, at_f4) enc; others = λ k a b c. ground (arith, after k a) },
      )

  set_opened_lem :
      (policy : StartupPolicy) (d : It86xDevice) (m : Machine Chip)
      → IsReady m
      → policy ≢ startup_unknown
      → ((set_opened out_byte in_byte policy (ok d, m)).0 ≡ ok tt)
        × IsStored policy (reg m.chip) (reg (set_opened out_byte in_byte policy (ok d, m)).1.chip)
  unfolding set_opened
  set_opened_lem policy d m h known =
      let m₂ = (sio_read out_byte in_byte 0xf2 m).1 in
      let m₃ = (sio_read out_byte in_byte 0xf4 m₂).1 in
      let f2 = (sio_read out_byte in_byte 0xf2 m).0 in
      let f4 = (sio_read out_byte in_byte 0xf4 m₂).0 in
      let same : reg m₃.chip ≡ reg m.chip = fun_ext (λ k. keeps 0xf4 k m₂ ∙ keeps 0xf2 k m) in
      let h₂ = reads-IsReady 0xf2 m h in
      let e2 : f2 ≡ reg m₃.chip 0xf2 = reads 0xf2 m h ∙ sym (λ i. same i 0xf2) in
      let e4 : f4 ≡ reg m₃.chip 0xf4 = reads 0xf4 m₂ h₂ ∙ sym (keeps 0xf4 0xf4 m₂) in
      rw (← same) (
        write_encoded policy d m₃ (encode_policy policy f2 f4) (reads-IsReady 0xf4 m₂ h₂) known (
          rw (← e2, ← e4)
            (encode_policy-EncodesTo policy f2 f4 (rw e2 (file.is_byte 0xf2 m₃.chip))
              (rw e4 (file.is_byte 0xf4 m₃.chip)))))

  opened :
      (calls : OpenCalls) (m m₁ : Machine Chip) (d : It86xDevice)
      → it86x_open out_byte in_byte calls m ≡ (ok d, m₁)
      → (config m₁.chip ≡ true) × ((k : ℕ) → reg m₁.chip k ≡ (if 7 == k then 4 else reg m.chip k))
  opened calls m m₁ d e =
      subst (OpenRegisters config reg m) e
        (it86x_open-OpenRegisters out_byte in_byte config selected reg file calls m)

  -- Where the session opens and the policy is known, setting it succeeds. The two registers then
  -- hold it and keep their other bits, and any register k other than those two, the selection of the
  -- logical device and the register that leaves the configuration mode is as before.
  pub set_startup_policy_stores :
      (calls : OpenCalls) (policy : StartupPolicy) (m m₁ : Machine Chip) (d : It86xDevice) (k : ℕ)
      → it86x_open out_byte in_byte calls m ≡ (ok d, m₁)
      → policy ≢ startup_unknown
      → 2 ≢ k
      → 7 ≢ k
      → 0xf2 ≢ k
      → 0xf4 ≢ k
      → ((set_startup_policy out_byte in_byte calls policy m).0 ≡ ok tt)
        × IsEncoded policy
            (reg m.chip 0xf2)
            (reg m.chip 0xf4)
            (reg (set_startup_policy out_byte in_byte calls policy m).1.chip 0xf2)
            (reg (set_startup_policy out_byte in_byte calls policy m).1.chip 0xf4)
        × (reg (set_startup_policy out_byte in_byte calls policy m).1.chip k ≡ reg m.chip k)
  unfolding set_startup_policy
  set_startup_policy_stores calls policy m m₁ d k e known a b c f =
      let (on, at) = opened calls m m₁ d e in
      let (done, stored) = set_opened_lem policy d m₁ (on, at 7) known in
      rw e (
        done,
        rw (← at 0xf2, ← at 0xf4) stored.encoded,
        ground (arith, stored.others k a c f, at k),
      )

  -- Where the session opens, reading gives the policy that the two registers hold.
  read_startup_policy_lem :
      (calls : OpenCalls) (m m₁ : Machine Chip) (d : It86xDevice)
      → it86x_open out_byte in_byte calls m ≡ (ok d, m₁)
      → (read_startup_policy out_byte in_byte calls m).0
        ≡ ok (decode_policy (reg m.chip 0xf2) (reg m.chip 0xf4))
  unfolding read_startup_policy read_opened
  read_startup_policy_lem calls m m₁ d e =
      let (on, at) = opened calls m m₁ d e in
      let m₂ = (sio_read out_byte in_byte 0xf2 m₁).1 in
      rw
        (
          e,
          reads 0xf2 m₁ (on, at 7),
          reads 0xf4 m₂ (reads-IsReady 0xf2 m₁ (on, at 7)),
          keeps 0xf2 0xf4 m₁,
          at 0xf2,
          at 0xf4,
        )
        refl

  -- On a chip whose data port is in reach in the configuration mode only: where a session opens, a known
  -- policy that is set in it is the policy that is read by a session which opens directly after, with
  -- nothing between that changes the registers.
  pub set-read_startup_policy :
      (calls calls' : OpenCalls) (policy : StartupPolicy) (m m₁ m₂ : Machine Chip)
      (d d' : It86xDevice)
      → it86x_open out_byte in_byte calls m ≡ (ok d, m₁)
      → policy ≢ startup_unknown
      → it86x_open out_byte in_byte calls' (set_startup_policy out_byte in_byte calls policy m).1
        ≡ (ok d', m₂)
      → (read_startup_policy out_byte in_byte calls'
          (set_startup_policy out_byte in_byte calls policy m).1).0
        ≡ ok policy
  set-read_startup_policy calls calls' policy m m₁ m₂ d d' e known e' =
      let (done, encoded, others) =
        set_startup_policy_stores calls policy m m₁ d 0 e known (omega arith) (omega arith)
          (omega arith) (omega arith) in
      read_startup_policy_lem calls' (set_startup_policy out_byte in_byte calls policy m).1 m₂ d' e'
      ∙ ap ok encoded.decoded
