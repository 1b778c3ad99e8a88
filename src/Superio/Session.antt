-- ===== src/Superio/Session.antt =====
-- A session with the controller holds all its resources, or none.
use ugreen_nas_hardware.Prelude.{
  ℕ, ◌≡◌, ◌⊎◌, inl, inr, refl, true, false, List, ◌∷◌, Option, none, some, Result, ok, err, ebusy,
  ◌==◌, bit_and, Bool-cases, ==_iff, String,
}
use ugreen_nas_hardware.Superio.{
  Machine, It86xDevice, OpenCalls, it8613_id, sio_index, sio_data, empty_device,
  active_controller_owner, it86x_close, check_identity, probe_chip, identify, with_hwm_ports,
  with_sio_ports, with_flock, with_lock, it86x_open,
}

-- The process holds neither the lock nor a port range.
pub record IsReleased {Chip : Type 0} (m : Machine Chip) : Type 0 where
  pub lock_closed : m.lock_open ≡ false
  pub sio_closed : m.sio_ports ≡ false
  pub hwm_closed : m.hwm_ports ≡ false

-- The last two port writes leave the configuration mode.
abbrev pub LeftConfig : {Chip : Type 0} → Machine Chip → Type 0
LeftConfig m =
    (earlier : List (ℕ × ℕ)) × (m.writes ≡ (sio_data, 0x02) ∷ (sio_index, 0x02) ∷ earlier)

-- An open session: the lock, both port ranges and the configuration mode, on an IT8613.
pub record IsOpen {Chip : Type 0} (d : It86xDevice) (m : Machine Chip) : Type 0 where
  pub locked : m.lock_open ≡ true
  pub lock_known : (fd : ℕ) × (d.lock_fd ≡ some fd)
  pub sio_opened : m.sio_ports ≡ true
  pub hwm_opened : m.hwm_ports ≡ true
  pub ports_noted : d.ports_enabled ≡ true
  pub config_noted : d.config_open ≡ true
  pub is_it8613 : d.chip_id ≡ it8613_id

-- After a failure everything is released, and the port writes are those before, or they end by
-- leaving the configuration mode.
abbrev pub OpenEnds : {Chip : Type 0} → Machine Chip → Result It86xDevice × Machine Chip → Type 0
OpenEnds before (ok d, m) = IsOpen d m
OpenEnds before (err e, m) = IsReleased m × ((m.writes ≡ before.writes) ⊎ LeftConfig m)

module _ {Chip : Type 0} (out_byte : ℕ → ℕ → Chip → Chip) (in_byte : ℕ → Chip → ℕ × Chip) where
  -- Closing an open session releases everything, and leaves the configuration mode last.
  pub it86x_close-IsReleased :
      (d : It86xDevice) (m : Machine Chip) (fd : ℕ)
      → d.config_open ≡ true
      → d.ports_enabled ≡ true
      → d.lock_fd ≡ some fd
      → IsReleased (it86x_close out_byte in_byte d m)
        × LeftConfig (it86x_close out_byte in_byte d m)
  unfolding it86x_close
  it86x_close-IsReleased d m fd c p l =
      rw (c, p, l) (record { lock_closed = refl; sio_closed = refl; hwm_closed = refl }, (_, refl))

  check_identity-OpenEnds :
      (before m : Machine Chip) (d : It86xDevice) (active fd : ℕ)
      → d.config_open ≡ true
      → d.ports_enabled ≡ true
      → d.lock_fd ≡ some fd
      → m.lock_open ≡ true
      → m.sio_ports ≡ true
      → m.hwm_ports ≡ true
      → OpenEnds before (check_identity out_byte in_byte d active m)
  unfolding check_identity
  check_identity-OpenEnds before m d active fd c p l x y z =
      let (released, left) = it86x_close-IsReleased d m fd c p l in
      elim (Bool-cases (bit_and active 0x01 == 0)) [
        | inl inactive ↦ rw inactive (released, inr left)
        | inr is_active ↦ elim (Bool-cases (d.chip_id == it8613_id)) [
          | inr other ↦ rw (is_active, other) (released, inr left)
          | inl same ↦
              rw (is_active, same)
                (record {
                  locked = x;
                  lock_known = (fd, l);
                  sio_opened = y;
                  hwm_opened = z;
                  ports_noted = p;
                  config_noted = c;
                  is_it8613 = (==_iff _ _).0 same;
                })
        ]
      ]

  identify-OpenEnds :
      (before m : Machine Chip) (fd : ℕ)
      → m.lock_open ≡ true
      → m.sio_ports ≡ true
      → m.hwm_ports ≡ true
      → OpenEnds before (
          identify out_byte in_byte
            (record empty_device { lock_fd = some fd; ports_enabled = true })
            m)
  unfolding identify probe_chip empty_device
  identify-OpenEnds before m fd a b c =
      let device : It86xDevice = record empty_device { lock_fd = some fd; ports_enabled = true } in
      let (device', active, m') = probe_chip out_byte in_byte device m in
      check_identity-OpenEnds before m' device' active fd refl refl refl a b c

  with_hwm_ports-OpenEnds :
      (calls : OpenCalls) (r : Result (Unit {0})) (m : Machine Chip) (fd : ℕ)
      → m.lock_open ≡ true
      → m.sio_ports ≡ true
      → m.hwm_ports ≡ false
      → OpenEnds m
          (with_hwm_ports out_byte in_byte calls r (record empty_device { lock_fd = some fd }) m)
  unfolding with_hwm_ports it86x_close empty_device
  with_hwm_ports-OpenEnds calls (err e) m fd a b c =
      (record { lock_closed = refl; sio_closed = refl; hwm_closed = c }, inl refl)
  with_hwm_ports-OpenEnds calls (ok tt) m fd a b c =
      identify-OpenEnds m (record m { hwm_ports = true }) fd a b refl

  with_sio_ports-OpenEnds :
      (calls : OpenCalls) (r : Result (Unit {0})) (m : Machine Chip) (fd : ℕ)
      → m.lock_open ≡ true
      → m.sio_ports ≡ false
      → m.hwm_ports ≡ false
      → OpenEnds m
          (with_sio_ports out_byte in_byte calls r (record empty_device { lock_fd = some fd }) m)
  unfolding with_sio_ports it86x_close empty_device
  with_sio_ports-OpenEnds calls (err e) m fd a b c =
      (record { lock_closed = refl; sio_closed = b; hwm_closed = c }, inl refl)
  with_sio_ports-OpenEnds calls (ok tt) m fd a b c =
      with_hwm_ports-OpenEnds calls calls.ioperm_hwm (record m { sio_ports = true }) fd a refl c

  with_lock-OpenEnds :
      (calls : OpenCalls) (lock : Result ℕ) (m : Machine Chip)
      → IsReleased m
      → OpenEnds m (with_lock out_byte in_byte calls lock m)
  unfolding with_lock it86x_close empty_device
  with_lock-OpenEnds calls (err e) m h = (h, inl refl)
  with_lock-OpenEnds calls (ok fd) m h = by_flock calls.flock_lock
    where
      by_flock :
          (r : Result (Unit {0}))
          → OpenEnds m (
              with_flock out_byte in_byte calls r
                (record empty_device { lock_fd = some fd })
                (record m { lock_open = true }))
      by_flock (err e) = (
        record { lock_closed = refl; sio_closed = h.sio_closed; hwm_closed = h.hwm_closed },
        inl refl,
      )
      by_flock (ok tt) =
          with_sio_ports-OpenEnds calls calls.ioperm_sio (record m { lock_open = true }) fd refl
            h.sio_closed h.hwm_closed

  -- Whatever the system calls and the chip answer: a successful open holds the lock and both port
  -- ranges on an IT8613 in configuration mode; a failed one has released all of them, and wrote
  -- no port or left the configuration mode last.
  pub it86x_open-OpenEnds :
      (calls : OpenCalls) (m : Machine Chip)
      → IsReleased m
      → OpenEnds m (it86x_open out_byte in_byte calls m)
  unfolding it86x_open
  it86x_open-OpenEnds calls m h = by_owner (active_controller_owner calls.exists)
    where
      by_owner :
          (owner : Option String)
          → OpenEnds m (elim owner [
            | some o ↦ (err ebusy, m)
            | none ↦ with_lock out_byte in_byte calls calls.open_lock m
          ])
      by_owner (some o) = (h, inl refl)
      by_owner none = with_lock-OpenEnds calls calls.open_lock m h
