-- ===== src/Fan/Maps/Laws/Release.antt =====
-- What is held after the fans were read or set, and when the Super I/O chip is touched.
use ugreen_nas_hardware.Prelude.{
  ℕ, ◌≡◌, ◌⊎◌, inl, inr, refl, Bool, true, false, not, ◌&&◌, List, Option, none, some, Bytes,
  Bool-cases, Result,
}
use ugreen_nas_hardware.Superio.{Machine, OpenCalls}
use ugreen_nas_hardware.Superio.Session.{IsReleased}
use ugreen_nas_hardware.Fan.Direct.{DirectChannel, FanStatus}
use ugreen_nas_hardware.Fan.Direct.Write.{direct-IsReleased}
use ugreen_nas_hardware.Fan.Hwmon.{HwmonWorld, HwmonCalls, hwmon_read_fans, hwmon_set_manual_pwm}
use ugreen_nas_hardware.Fan.Hwmon.Ends.{hwmon_set_manual_pwm-frees, hwmon_read_fans-frees}
use ugreen_nas_hardware.Fan.Maps.{
  FanWorld, is_enodev, or_direct_set, or_direct_read, set_target, set_fan_pwm, read_fans,
}
use ugreen_nas_hardware.Fan.Maps.Tables.{Wires, FanMap}

-- Neither way holds anything.
abbrev pub IsFree : {Files Chip : Type 0} → FanWorld Files Chip → Type 0
IsFree w = (w.hwmon.lock_open ≡ false) × IsReleased w.machine

module _ {Files Chip : Type 0} (read_file : Bytes → Files → Result Bytes × Files)
    (write_file : Bytes → Bytes → Files → Result ℕ × Files) (wait : Files → Files)
    (out_byte : ℕ → ℕ → Chip → Chip) (in_byte : ℕ → Chip → ℕ × Chip) (calls : HwmonCalls)
    (opens : OpenCalls) where
  or_direct_read-IsFree :
      (channels : List DirectChannel) (m : Machine Chip)
      (r : Result (List FanStatus) × HwmonWorld Files)
      → r.1.lock_open ≡ false
      → IsReleased m
      → IsFree
          (or_direct_read read_file write_file wait out_byte in_byte calls opens channels m r).1
  or_direct_read-IsFree channels m (result, w) h released =
      elim (Bool-cases (not (is_enodev result))) [
        | inl other ↦ rw other (h, released)
        | inr absent ↦
            rw absent (h, (direct-IsReleased out_byte in_byte opens (some channels) 0 m released).0)
      ]

  or_direct_set-IsFree :
      (refused : Bool) (channels : List DirectChannel) (pwm : ℕ) (m : Machine Chip)
      (r : Result (Unit {0}) × HwmonWorld Files)
      → r.1.lock_open ≡ false
      → IsReleased m
      → IsFree
          (or_direct_set read_file write_file wait out_byte in_byte calls opens refused channels pwm
            m r).1
  or_direct_set-IsFree refused channels pwm m (result, w) h released =
      elim (Bool-cases (not (is_enodev result))) [
        | inl other ↦ rw other (h, released)
        | inr absent ↦ elim (Bool-cases refused) [
          | inl refuses ↦ rw (absent, refuses) (h, released)
          | inr allowed ↦
              rw (absent, allowed)
                (h, (direct-IsReleased out_byte in_byte opens (some channels) pwm m released).1)
        ]
      ]

  set_target-IsFree :
      (refused : Bool) (wires : Option Wires) (pwm : ℕ) (w : FanWorld Files Chip)
      → IsFree w
      → IsFree
          (set_target read_file write_file wait out_byte in_byte calls opens refused wires pwm w).1
  unfolding set_target
  set_target-IsFree refused none pwm w h = h
  set_target-IsFree refused (some wires) pwm w h =
      or_direct_set-IsFree refused wires.direct pwm w.machine
        (hwmon_set_manual_pwm read_file write_file wait calls (some wires.hwmon) pwm w.hwmon)
        (hwmon_set_manual_pwm-frees read_file write_file wait calls (some wires.hwmon) pwm w.hwmon
          h.0)
        h.1

  -- For any map of fans, name, value, files, chip and answers of the system: from a state that holds
  -- nothing, reading the fans and setting them end in a state that holds nothing, neither the lock
  -- of the hwmon session nor the lock and the ports of the Super I/O session.
  pub fans-IsFree :
      (map : FanMap) (force : Bool) (fan_id : Bytes) (pwm : ℕ) (w : FanWorld Files Chip)
      → IsFree w
      → IsFree (read_fans read_file write_file wait out_byte in_byte calls opens map w).1
        × IsFree
            (set_fan_pwm read_file write_file wait out_byte in_byte calls opens map force fan_id pwm
              w).1
  unfolding read_fans set_fan_pwm
  fans-IsFree map force fan_id pwm w h = (
    or_direct_read-IsFree map.status.direct w.machine
        (hwmon_read_fans read_file write_file wait calls (some map.status.hwmon) w.hwmon)
        (hwmon_read_fans-frees read_file write_file wait calls (some map.status.hwmon) w.hwmon h.0)
        h.1,
    set_target-IsFree (map.needs_force && not force) (map.target fan_id) pwm w h,
  )

  -- What allows a direct write to the fan: a target that the map knows, an hwmon that ended with
  -- `-ENODEV` for it, and `force` where the map requires it.
  abbrev pub MayTouch : FanMap → Bool → Bytes → ℕ → FanWorld Files Chip → Type 0
  MayTouch map force fan_id pwm w =
      (wires : Wires) × (map.target fan_id ≡ some wires)
      × (is_enodev
            (hwmon_set_manual_pwm read_file write_file wait calls (some wires.hwmon) pwm w.hwmon).0
          ≡ true)
      × ((map.needs_force && not force) ≡ false)

  kept :
      (refused : Bool) (channels : List DirectChannel) (pwm : ℕ) (m : Machine Chip)
      (r : Result (Unit {0}) × HwmonWorld Files)
      → ((or_direct_set read_file write_file wait out_byte in_byte calls opens refused channels pwm
            m r).1.machine
          ≡ m)
        ⊎ ((is_enodev r.0 ≡ true) × (refused ≡ false))
  kept refused channels pwm m (result, w) = elim (Bool-cases (is_enodev result)) [
    | inr other ↦ inl (rw other refl)
    | inl absent ↦ elim (Bool-cases refused) [
      | inl refuses ↦ inl (rw (absent, refuses) refl)
      | inr allowed ↦ inr (absent, allowed)
    ]
  ]

  kept_target :
      (map : FanMap) (force : Bool) (fan_id : Bytes) (pwm : ℕ) (w : FanWorld Files Chip)
      (target : Option Wires)
      → map.target fan_id ≡ target
      → ((set_target read_file write_file wait out_byte in_byte calls opens
            (map.needs_force && not force)
            target
            pwm
            w).1.machine
          ≡ w.machine)
        ⊎ MayTouch map force fan_id pwm w
  unfolding set_target
  kept_target map force fan_id pwm w none e = inl refl
  kept_target map force fan_id pwm w (some wires) e =
      elim (kept (map.needs_force && not force) wires.direct pwm w.machine
        (hwmon_set_manual_pwm read_file write_file wait calls (some wires.hwmon) pwm w.hwmon)) [
          | inl same ↦ inl same
          | inr (absent, allowed) ↦ inr (wires, e, absent, allowed)
        ]

  -- Setting a fan leaves the Super I/O chip, its port writes and its session as they were, unless
  -- the name selects a target, hwmon ended with `-ENODEV` for that target, and `force` was given
  -- where the map requires it.
  pub set_fan_pwm-MayTouch :
      (map : FanMap) (force : Bool) (fan_id : Bytes) (pwm : ℕ) (w : FanWorld Files Chip)
      → ((set_fan_pwm read_file write_file wait out_byte in_byte calls opens map force fan_id pwm
            w).1.machine
          ≡ w.machine)
        ⊎ MayTouch map force fan_id pwm w
  unfolding set_fan_pwm
  set_fan_pwm-MayTouch map force fan_id pwm w =
      kept_target map force fan_id pwm w (map.target fan_id) refl
