-- ===== src/Fan/Maps.antt =====
-- The fans of each model, fan/it8613_fan.c and fan/it8613_dx*.c: through hwmon, or through the Super
-- I/O chip where hwmon has no IT8613. The functions of the files differ in their tables, in the
-- targets that they know and in whether a direct write requires `force`.
pub mod Tables
pub mod Models
pub mod Laws
use ugreen_nas_hardware.Prelude.{
  ℕ, Bool, true, false, not, ◌&&◌, ◌==◌, List, Option, none, some, if◌then◌else◌, Bytes, Errno,
  einval, eperm, enodev, from_kernel, Result, ok, err,
}
use ugreen_nas_hardware.Superio.{Machine, OpenCalls}
use ugreen_nas_hardware.Fan.Direct.{
  DirectChannel, FanStatus, direct_read_fans, direct_set_manual_pwm,
}
use ugreen_nas_hardware.Fan.Hwmon.{
  HwmonWorld, HwmonChannel, HwmonCalls, hwmon_read_fans, hwmon_set_manual_pwm,
}
use Tables.{Wires, FanMap}

-- What both ways work on.
pub record FanWorld (Files Chip : Type 0) : Type 0 where
  pub hwmon : HwmonWorld Files
  pub machine : Machine Chip

-- `-ENODEV`, also when a system call left it.
unfoldable pub is_enodev : {A : Type 0} → Result A → Bool
is_enodev (err enodev) = true
is_enodev (err (from_kernel n)) = n == 19
is_enodev _ = false

module _ {Files Chip : Type 0} (read_file : Bytes → Files → Result Bytes × Files)
    (write_file : Bytes → Bytes → Files → Result ℕ × Files) (wait : Files → Files)
    (out_byte : ℕ → ℕ → Chip → Chip) (in_byte : ℕ → Chip → ℕ × Chip) (calls : HwmonCalls)
    (opens : OpenCalls) where
  -- After hwmon has answered.
  abbrev pub or_direct_read :
      List DirectChannel
      → Machine Chip
      → Result (List FanStatus) × HwmonWorld Files
      → Result (List FanStatus) × FanWorld Files Chip
  or_direct_read channels m (result, w) =
      let (direct_result, m') = direct_read_fans out_byte in_byte opens (some channels) m in
      if not (is_enodev result)
      then (result, record { hwmon = w; machine = m })
      else (direct_result, record { hwmon = w; machine = m' })

  unfoldable pub read_fans :
      FanMap → FanWorld Files Chip → Result (List FanStatus) × FanWorld Files Chip
  unfolding is_enodev
  read_fans map w =
      or_direct_read map.status.direct w.machine
        (hwmon_read_fans read_file write_file wait calls (some map.status.hwmon) w.hwmon)

  abbrev pub or_direct_set :
      Bool
      → List DirectChannel
      → ℕ
      → Machine Chip
      → Result (Unit {0}) × HwmonWorld Files
      → Result (Unit {0}) × FanWorld Files Chip
  or_direct_set refused channels pwm m (result, w) =
      let (direct_result, m') =
        direct_set_manual_pwm out_byte in_byte opens (some channels) pwm m in
      if not (is_enodev result)
      then (result, record { hwmon = w; machine = m })
      else if refused
      then (err eperm, record { hwmon = w; machine = m })
      else (direct_result, record { hwmon = w; machine = m' })

  unfoldable pub set_target :
      Bool → Option Wires → ℕ → FanWorld Files Chip → Result (Unit {0}) × FanWorld Files Chip
  unfolding is_enodev
  set_target refused none pwm w = (err einval, w)
  set_target refused (some wires) pwm w =
      or_direct_set refused wires.direct pwm w.machine
        (hwmon_set_manual_pwm read_file write_file wait calls (some wires.hwmon) pwm w.hwmon)

  unfoldable pub set_fan_pwm :
      FanMap → Bool → Bytes → ℕ → FanWorld Files Chip → Result (Unit {0}) × FanWorld Files Chip
  unfolding set_target
  set_fan_pwm map force fan_id pwm w =
      set_target (map.needs_force && not force) (map.target fan_id) pwm w
