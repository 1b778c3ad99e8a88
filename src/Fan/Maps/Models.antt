-- ===== src/Fan/Maps/Models.antt =====
-- The functions of fan/it8613_fan.c and of the fan/it8613_dx*.c. Where they take no `force`, a direct
-- write needs none.
use ugreen_nas_hardware.Prelude.{ℕ, Bool, true, List, Bytes, Result}
use ugreen_nas_hardware.Superio.{OpenCalls}
use ugreen_nas_hardware.Fan.Direct.{FanStatus}
use ugreen_nas_hardware.Fan.Hwmon.{HwmonCalls}
use ugreen_nas_hardware.Fan.Maps.{FanWorld, read_fans, set_fan_pwm}
use ugreen_nas_hardware.Fan.Maps.Tables.{
  it8613_map, dx4600_map, dxp4800_map, dxp4800s_map, dxp480t_map, dxp6800_map, dxp6800plus_map,
  dxp6800pro_map,
}

module _ {Files Chip : Type 0} (read_file : Bytes → Files → Result Bytes × Files)
    (write_file : Bytes → Bytes → Files → Result ℕ × Files) (wait : Files → Files)
    (out_byte : ℕ → ℕ → Chip → Chip) (in_byte : ℕ → Chip → ℕ × Chip) (calls : HwmonCalls)
    (opens : OpenCalls) where
  -- fan/it8613_fan.c
  unfoldable pub it8613_read_fans :
      Bool → FanWorld Files Chip → Result (List FanStatus) × FanWorld Files Chip
  unfolding read_fans it8613_map
  it8613_read_fans force w =
      read_fans read_file write_file wait out_byte in_byte calls opens it8613_map w

  unfoldable pub it8613_set_fan_pwm :
      Bool → Bytes → ℕ → FanWorld Files Chip → Result (Unit {0}) × FanWorld Files Chip
  unfolding set_fan_pwm it8613_map
  it8613_set_fan_pwm force fan_id pwm w =
      set_fan_pwm read_file write_file wait out_byte in_byte calls opens it8613_map force fan_id pwm
        w

  -- fan/it8613_dx4600.c
  unfoldable pub dx4600_read_fan :
      FanWorld Files Chip → Result (List FanStatus) × FanWorld Files Chip
  unfolding read_fans dx4600_map
  dx4600_read_fan w = read_fans read_file write_file wait out_byte in_byte calls opens dx4600_map w

  unfoldable pub dx4600_set_fan_pwm :
      Bytes → ℕ → FanWorld Files Chip → Result (Unit {0}) × FanWorld Files Chip
  unfolding set_fan_pwm dx4600_map
  dx4600_set_fan_pwm fan_id pwm w =
      set_fan_pwm read_file write_file wait out_byte in_byte calls opens dx4600_map true fan_id pwm
        w

  -- fan/it8613_dxp4800.c
  unfoldable pub dxp4800_read_fan :
      FanWorld Files Chip → Result (List FanStatus) × FanWorld Files Chip
  unfolding read_fans dxp4800_map
  dxp4800_read_fan w =
      read_fans read_file write_file wait out_byte in_byte calls opens dxp4800_map w

  unfoldable pub dxp4800_set_fan_pwm :
      Bytes → ℕ → FanWorld Files Chip → Result (Unit {0}) × FanWorld Files Chip
  unfolding set_fan_pwm dxp4800_map
  dxp4800_set_fan_pwm fan_id pwm w =
      set_fan_pwm read_file write_file wait out_byte in_byte calls opens dxp4800_map true fan_id pwm
        w

  -- fan/it8613_dxp4800s.c
  unfoldable pub dxp4800s_read_fan :
      FanWorld Files Chip → Result (List FanStatus) × FanWorld Files Chip
  unfolding read_fans dxp4800s_map
  dxp4800s_read_fan w =
      read_fans read_file write_file wait out_byte in_byte calls opens dxp4800s_map w

  unfoldable pub dxp4800s_set_fan_pwm :
      Bytes → ℕ → FanWorld Files Chip → Result (Unit {0}) × FanWorld Files Chip
  unfolding set_fan_pwm dxp4800s_map
  dxp4800s_set_fan_pwm fan_id pwm w =
      set_fan_pwm read_file write_file wait out_byte in_byte calls opens dxp4800s_map true fan_id
        pwm w

  -- fan/it8613_dxp480t.c
  unfoldable pub dxp480t_read_fans :
      FanWorld Files Chip → Result (List FanStatus) × FanWorld Files Chip
  unfolding read_fans dxp480t_map
  dxp480t_read_fans w =
      read_fans read_file write_file wait out_byte in_byte calls opens dxp480t_map w

  unfoldable pub dxp480t_set_fan_pwm :
      Bool → Bytes → ℕ → FanWorld Files Chip → Result (Unit {0}) × FanWorld Files Chip
  unfolding set_fan_pwm dxp480t_map
  dxp480t_set_fan_pwm force fan_id pwm w =
      set_fan_pwm read_file write_file wait out_byte in_byte calls opens dxp480t_map force fan_id
        pwm w

  -- fan/it8613_dxp6800.c
  unfoldable pub dxp6800_read_fans :
      FanWorld Files Chip → Result (List FanStatus) × FanWorld Files Chip
  unfolding read_fans dxp6800_map
  dxp6800_read_fans w =
      read_fans read_file write_file wait out_byte in_byte calls opens dxp6800_map w

  unfoldable pub dxp6800_set_fan_pwm :
      Bool → Bytes → ℕ → FanWorld Files Chip → Result (Unit {0}) × FanWorld Files Chip
  unfolding set_fan_pwm dxp6800_map
  dxp6800_set_fan_pwm force fan_id pwm w =
      set_fan_pwm read_file write_file wait out_byte in_byte calls opens dxp6800_map force fan_id
        pwm w

  -- fan/it8613_dxp6800plus.c
  unfoldable pub dxp6800plus_read_fans :
      FanWorld Files Chip → Result (List FanStatus) × FanWorld Files Chip
  unfolding read_fans dxp6800plus_map
  dxp6800plus_read_fans w =
      read_fans read_file write_file wait out_byte in_byte calls opens dxp6800plus_map w

  unfoldable pub dxp6800plus_set_fan_pwm :
      Bool → Bytes → ℕ → FanWorld Files Chip → Result (Unit {0}) × FanWorld Files Chip
  unfolding set_fan_pwm dxp6800plus_map
  dxp6800plus_set_fan_pwm force fan_id pwm w =
      set_fan_pwm read_file write_file wait out_byte in_byte calls opens dxp6800plus_map force
        fan_id pwm w

  -- fan/it8613_dxp6800pro.c
  unfoldable pub dxp6800pro_read_fans :
      FanWorld Files Chip → Result (List FanStatus) × FanWorld Files Chip
  unfolding read_fans dxp6800pro_map
  dxp6800pro_read_fans w =
      read_fans read_file write_file wait out_byte in_byte calls opens dxp6800pro_map w

  unfoldable pub dxp6800pro_set_fan_pwm :
      Bool → Bytes → ℕ → FanWorld Files Chip → Result (Unit {0}) × FanWorld Files Chip
  unfolding set_fan_pwm dxp6800pro_map
  dxp6800pro_set_fan_pwm force fan_id pwm w =
      set_fan_pwm read_file write_file wait out_byte in_byte calls opens dxp6800pro_map force fan_id
        pwm w
