-- ===== src/Superio/Registers.antt =====
-- The configuration registers behind the index and data ports, as the chip's data sheet has them:
-- below 0x30 they are global, from there on they belong to the logical device that register 7
-- selects. `reg c k` is the value of register k for logical device 4, the hardware monitor.
use ugreen_nas_hardware.Prelude.{
  ℕ, ◌<◌, ◌≡◌, ◌≢◌, ◌⊎◌, inl, inr, refl, ◌∙◌, arith, true, Bool, false, ◌==◌, if◌then◌else◌, u8,
  Bool-cases, bit_and, ebusy, Result, ok, err, Option, none, some, String,
}
use ugreen_nas_hardware.Superio.{
  Machine, It86xDevice, OpenCalls, sio_index, sio_data, it8613_id, sio_enter, sio_exit, sio_read,
  sio_write, it86x_close, check_identity, probe_chip, identify, with_hwm_ports, with_sio_ports,
  with_flock, with_lock, it86x_open, active_controller_owner, empty_device,
}

-- Register k is in reach: global, or with logical device 4 selected.
abbrev pub Answers : (ℕ → ℕ) → ℕ → Type 0
Answers regs k = (k < 0x30) ⊎ (regs 7 ≡ 4)

-- The registers that the session writes: the selection of the logical device, and the two of the
-- power policy. The identity registers 0x20, 0x21 and 0x22 are not among them.
abbrev pub IsWritable : ℕ → Type 0
IsWritable k = (k ≡ 7) ⊎ (k ≡ 0xf2) ⊎ (k ≡ 0xf4)

-- The data port is that of the selected register only in the configuration mode. Four key bytes on the
-- index port give that mode, and the value 2 in register 2 leaves it.
pub record IsRegisterFile {Chip : Type 0} (out_byte : ℕ → ℕ → Chip → Chip)
    (in_byte : ℕ → Chip → ℕ × Chip) (config : Chip → Bool) (selected : Chip → ℕ)
    (reg : Chip → ℕ → ℕ) : Type 0 where
  pub key :
      (c : Chip)
      → config (
          out_byte 0x55 sio_index
            (out_byte 0x55 sio_index (out_byte 0x01 sio_index (out_byte 0x87 sio_index c))))
        ≡ true
  pub leave :
      (k : ℕ) (c : Chip)
      → config c ≡ true
      → selected c ≡ 2
      → 2 ≢ k
      → (config (out_byte 2 sio_data c) ≡ false) × (reg (out_byte 2 sio_data c) k ≡ reg c k)
  pub select :
      (r : ℕ) (c : Chip)
      → config c ≡ true
      → (config (out_byte r sio_index c) ≡ true) × (selected (out_byte r sio_index c) ≡ r)
  pub select_keeps : (r k : ℕ) (c : Chip) → reg (out_byte r sio_index c) k ≡ reg c k
  pub read :
      (c : Chip)
      → config c ≡ true
      → Answers (reg c) (selected c)
      → (in_byte sio_data c).0 ≡ reg c (selected c)
  pub read_keeps :
      (k : ℕ) (c : Chip)
      → (config (in_byte sio_data c).1 ≡ config c) × (reg (in_byte sio_data c).1 k ≡ reg c k)
  pub write :
      (v k : ℕ) (c : Chip)
      → config c ≡ true
      → Answers (reg c) (selected c)
      → IsWritable (selected c)
      → (config (out_byte v sio_data c) ≡ true)
        × (reg (out_byte v sio_data c) k ≡ (if selected c == k then u8 v else reg c k))
  pub is_byte : (k : ℕ) (c : Chip) → reg c k < 256

-- After a successful open the chip is in the configuration mode with the hardware monitor selected,
-- and no other register has changed.
abbrev pub OpenRegisters :
    {Chip : Type 0} (config : Chip → Bool) (reg : Chip → ℕ → ℕ)
    → Machine Chip
    → Result It86xDevice × Machine Chip
    → Type 0
OpenRegisters config reg before (ok d, m) =
    (config m.chip ≡ true) × ((k : ℕ) → reg m.chip k ≡ (if 7 == k then 4 else reg before.chip k))
OpenRegisters config reg before (err e, m) = Unit

module _ {Chip : Type 0} (out_byte : ℕ → ℕ → Chip → Chip) (in_byte : ℕ → Chip → ℕ × Chip)
    (config : Chip → Bool) (selected : Chip → ℕ) (reg : Chip → ℕ → ℕ)
    (file : IsRegisterFile out_byte in_byte config selected reg) where
  pub reg-sio_read :
      (r k : ℕ) (m : Machine Chip) → reg (sio_read out_byte in_byte r m).1.chip k ≡ reg m.chip k
  unfolding sio_read
  reg-sio_read r k m = (file.read_keeps k _).1 ∙ file.select_keeps r k _

  pub config-sio_read :
      (r : ℕ) (m : Machine Chip)
      → config m.chip ≡ true
      → config (sio_read out_byte in_byte r m).1.chip ≡ true
  unfolding sio_read
  config-sio_read r m c = (file.read_keeps 0 _).0 ∙ (file.select r m.chip c).0

  pub sio_read_lem :
      (r : ℕ) (m : Machine Chip)
      → config m.chip ≡ true
      → Answers (reg m.chip) r
      → (sio_read out_byte in_byte r m).0 ≡ reg m.chip r
  unfolding sio_read
  sio_read_lem r m c h =
      let (on, here) = file.select r m.chip c in
      let now = file.read (out_byte r sio_index m.chip) on in
      ground
        (arith, file.select_keeps r 7 m.chip, file.select_keeps r r m.chip, file.is_byte r m.chip)

  pub sio_write_lem :
      (r v k : ℕ) (m : Machine Chip)
      → config m.chip ≡ true
      → Answers (reg m.chip) r
      → IsWritable r
      → (config (sio_write out_byte in_byte r v m).chip ≡ true)
        × (reg (sio_write out_byte in_byte r v m).chip k ≡ (if r == k then u8 v else reg m.chip k))
  unfolding sio_write
  sio_write_lem r v k m c h w =
      let (on, here) = file.select r m.chip c in
      let now = file.write v k (out_byte r sio_index m.chip) on in
      ground (arith, file.select_keeps r 7 m.chip, file.select_keeps r k m.chip)

  sio_enter_lem :
      (k : ℕ) (m : Machine Chip)
      → (config (sio_enter out_byte in_byte m).chip ≡ true)
        × (reg (sio_enter out_byte in_byte m).chip k ≡ reg m.chip k)
  unfolding sio_enter
  sio_enter_lem k m = (
    file.key m.chip,
    file.select_keeps _ k _
        ∙ file.select_keeps _ k _
        ∙ file.select_keeps _ k _
        ∙ file.select_keeps _ k _,
  )

  reg-sio_exit :
      (k : ℕ) (m : Machine Chip)
      → config m.chip ≡ true
      → 2 ≢ k
      → reg (sio_exit out_byte in_byte m).chip k ≡ reg m.chip k
  unfolding sio_exit
  reg-sio_exit k m c h =
      let (on, here) = file.select 2 m.chip c in
      (file.leave k _ on here h).1 ∙ file.select_keeps 2 k m.chip

  pub reg-it86x_close :
      (d : It86xDevice) (k : ℕ) (m : Machine Chip)
      → config m.chip ≡ true
      → 2 ≢ k
      → reg (it86x_close out_byte in_byte d m).chip k ≡ reg m.chip k
  unfolding it86x_close
  reg-it86x_close d k m c h = ground (arith, reg-sio_exit k m c h)

  probe_chip_lem :
      (d : It86xDevice) (k : ℕ) (m : Machine Chip)
      → (config (probe_chip out_byte in_byte d m).2.chip ≡ true)
        × (reg (probe_chip out_byte in_byte d m).2.chip k ≡ (if 7 == k then 4 else reg m.chip k))
  unfolding probe_chip
  probe_chip_lem d k m =
      let m₁ = sio_enter out_byte in_byte m in
      let m₂ = (sio_read out_byte in_byte 0x20 m₁).1 in
      let m₃ = (sio_read out_byte in_byte 0x21 m₂).1 in
      let m₄ = (sio_read out_byte in_byte 0x22 m₃).1 in
      let m₅ = sio_write out_byte in_byte 7 4 m₄ in
      let (c₁, entered) = sio_enter_lem k m in
      let c₄ = config-sio_read 0x22 m₃ (config-sio_read 0x21 m₂ (config-sio_read 0x20 m₁ c₁)) in
      let (c₅, written) = sio_write_lem 7 4 k m₄ c₄ (inl (omega arith)) (inl refl) in
      (
        config-sio_read 0x30 m₅ c₅,
        ground (
          arith,
          written,
          entered,
          reg-sio_read 0x20 k m₁,
          reg-sio_read 0x21 k m₂,
          reg-sio_read 0x22 k m₃,
          reg-sio_read 0x30 k m₅,
        ),
      )

  check_identity-OpenRegisters :
      (before : Machine Chip) (d : It86xDevice) (active : ℕ) (m : Machine Chip)
      → config m.chip ≡ true
      → ((k : ℕ) → reg m.chip k ≡ (if 7 == k then 4 else reg before.chip k))
      → OpenRegisters config reg before (check_identity out_byte in_byte d active m)
  unfolding check_identity
  check_identity-OpenRegisters before d active m c h =
      elim (Bool-cases (bit_and active 0x01 == 0)) [
        | inl inactive ↦ rw inactive tt
        | inr is_active ↦ elim (Bool-cases (d.chip_id == it8613_id)) [
          | inr other ↦ rw (is_active, other) tt
          | inl same ↦ rw (is_active, same) (c, h)
        ]
      ]

  with_hwm_ports-OpenRegisters :
      (calls : OpenCalls) (r : Result (Unit {0})) (d : It86xDevice) (before m : Machine Chip)
      → ((k : ℕ) → reg m.chip k ≡ reg before.chip k)
      → OpenRegisters config reg before (with_hwm_ports out_byte in_byte calls r d m)
  unfolding with_hwm_ports identify
  with_hwm_ports-OpenRegisters calls (err e) d before m h = tt
  with_hwm_ports-OpenRegisters calls (ok _) d before m h =
      let m' = record m { hwm_ports = true } in
      let device = record d { ports_enabled = true } in
      let (d', active, m'') = probe_chip out_byte in_byte device m' in
      check_identity-OpenRegisters before d' active m'' (probe_chip_lem device 0 m').0
        (λ k. ground (arith, (probe_chip_lem device k m').1, h k))

  with_sio_ports-OpenRegisters :
      (calls : OpenCalls) (r : Result (Unit {0})) (d : It86xDevice) (before m : Machine Chip)
      → ((k : ℕ) → reg m.chip k ≡ reg before.chip k)
      → OpenRegisters config reg before (with_sio_ports out_byte in_byte calls r d m)
  unfolding with_sio_ports
  with_sio_ports-OpenRegisters calls (err e) d before m h = tt
  with_sio_ports-OpenRegisters calls (ok _) d before m h =
      with_hwm_ports-OpenRegisters calls calls.ioperm_hwm d before (record m { sio_ports = true }) h

  with_flock-OpenRegisters :
      (calls : OpenCalls) (r : Result (Unit {0})) (d : It86xDevice) (before m : Machine Chip)
      → ((k : ℕ) → reg m.chip k ≡ reg before.chip k)
      → OpenRegisters config reg before (with_flock out_byte in_byte calls r d m)
  unfolding with_flock
  with_flock-OpenRegisters calls (err e) d before m h = tt
  with_flock-OpenRegisters calls (ok _) d before m h =
      with_sio_ports-OpenRegisters calls calls.ioperm_sio d before m h

  with_lock-OpenRegisters :
      (calls : OpenCalls) (r : Result ℕ) (m : Machine Chip)
      → OpenRegisters config reg m (with_lock out_byte in_byte calls r m)
  unfolding with_lock
  with_lock-OpenRegisters calls (err e) m = tt
  with_lock-OpenRegisters calls (ok fd) m =
      with_flock-OpenRegisters calls calls.flock_lock (record empty_device { lock_fd = some fd }) m
        (record m { lock_open = true }) (λ k. refl)

  pub it86x_open-OpenRegisters :
      (calls : OpenCalls) (m : Machine Chip)
      → OpenRegisters config reg m (it86x_open out_byte in_byte calls m)
  unfolding it86x_open
  it86x_open-OpenRegisters calls m = by_owner (active_controller_owner calls.exists)
    where
      by_owner :
          (owner : Option String)
          → OpenRegisters config reg m (elim owner [
            | some o ↦ (err ebusy, m)
            | none ↦ with_lock out_byte in_byte calls calls.open_lock m
          ])
      by_owner (some o) = tt
      by_owner none = with_lock-OpenRegisters calls calls.open_lock m
