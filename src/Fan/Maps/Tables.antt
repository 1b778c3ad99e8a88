-- ===== src/Fan/Maps/Tables.antt =====
-- The tables of fan/it8613_fan.c and of the fan/it8613_dx*.c.
use ugreen_nas_hardware.Prelude.{
  ℕ, Bool, true, false, List, [], ◌∷◌, Option, none, some, if◌then◌else◌, Bytes, String, codes,
  str_is,
}
use ugreen_nas_hardware.Fan.Direct.{DirectChannel}
use ugreen_nas_hardware.Fan.Hwmon.{HwmonChannel}

-- The same fans on both ways.
pub record Wires : Type 0 where
  pub hwmon : List HwmonChannel
  pub direct : List DirectChannel

-- What a model reads, what the name of a fan selects, and whether a direct write requires `force`.
pub record FanMap : Type 0 where
  pub status : Wires
  pub target : Bytes → Option Wires
  pub needs_force : Bool

-- An initialiser `{id, pwm_index, fan_index}`.
abbrev pub hwmon_channel : String → ℕ → ℕ → HwmonChannel
hwmon_channel id pwm_index fan_index = record {
  id = some (codes id);
  pwm_index = pwm_index;
  fan_index = fan_index;
}

-- An initialiser `{id, control, duty, low, high, true}`.
abbrev pub direct_channel : String → ℕ → ℕ → ℕ → ℕ → DirectChannel
direct_channel id control duty low high = record {
  id = some (codes id);
  control_register = control;
  duty_register = duty;
  tachometer_low_register = low;
  tachometer_high_register = high;
  pwm_supported = true;
}

-- fan/it8613_fan.c
abbrev pub it8613_status : Wires
it8613_status = record {
  hwmon = hwmon_channel "cpu" 2 2 ∷ hwmon_channel "sys" 3 3 ∷ [];
  direct = direct_channel "cpu" 0x16 0x6b 0x0e 0x19 ∷ direct_channel "sys" 0x17 0x73 0x0f 0x1a ∷ [];
}

abbrev pub it8613_cpu : Wires
it8613_cpu = record {
  hwmon = hwmon_channel "cpu" 2 2 ∷ [];
  direct = direct_channel "cpu" 0x16 0x6b 0x0e 0x19 ∷ [];
}

abbrev pub it8613_sys : Wires
it8613_sys = record {
  hwmon = hwmon_channel "sys" 3 3 ∷ [];
  direct = direct_channel "sys" 0x17 0x73 0x0f 0x1a ∷ [];
}

unfoldable pub it8613_target : Bytes → Option Wires
it8613_target fan_id =
    if str_is fan_id "cpu"
    then some it8613_cpu
    else if str_is fan_id "sys"
    then some it8613_sys
    else none

unfoldable pub it8613_map : FanMap
unfolding it8613_target
it8613_map = record { status = it8613_status; target = it8613_target; needs_force = true }

-- fan/it8613_dx4600.c
abbrev pub dx4600_status : Wires
dx4600_status = record {
  hwmon = hwmon_channel "sys" 3 3 ∷ [];
  direct = direct_channel "sys" 0x17 0x73 0x0f 0x1a ∷ [];
}

unfoldable pub dx4600_target : Bytes → Option Wires
dx4600_target fan_id = if str_is fan_id "sys" then some dx4600_status else none

unfoldable pub dx4600_map : FanMap
unfolding dx4600_target
dx4600_map = record { status = dx4600_status; target = dx4600_target; needs_force = false }

-- fan/it8613_dxp4800.c
abbrev pub dxp4800_status : Wires
dxp4800_status = record {
  hwmon = hwmon_channel "sys" 3 3 ∷ [];
  direct = direct_channel "sys" 0x17 0x73 0x0f 0x1a ∷ [];
}

unfoldable pub dxp4800_target : Bytes → Option Wires
dxp4800_target fan_id = if str_is fan_id "sys" then some dxp4800_status else none

unfoldable pub dxp4800_map : FanMap
unfolding dxp4800_target
dxp4800_map = record { status = dxp4800_status; target = dxp4800_target; needs_force = false }

-- fan/it8613_dxp4800s.c
abbrev pub dxp4800s_status : Wires
dxp4800s_status = record {
  hwmon = hwmon_channel "sys" 3 3 ∷ [];
  direct = direct_channel "sys" 0x17 0x73 0x0f 0x1a ∷ [];
}

unfoldable pub dxp4800s_target : Bytes → Option Wires
dxp4800s_target fan_id = if str_is fan_id "sys" then some dxp4800s_status else none

unfoldable pub dxp4800s_map : FanMap
unfolding dxp4800s_target
dxp4800s_map = record { status = dxp4800s_status; target = dxp4800s_target; needs_force = false }

-- fan/it8613_dxp480t.c
abbrev pub dxp480t_status : Wires
dxp480t_status = record {
  hwmon = hwmon_channel "cpu" 3 3 ∷ hwmon_channel "sys1" 2 2 ∷ hwmon_channel "sys2" 4 4 ∷ [];
  direct =
      direct_channel "cpu" 0x17 0x73 0x0f 0x1a
      ∷ direct_channel "sys1" 0x16 0x6b 0x0e 0x19
      ∷ direct_channel "sys2" 0x1e 0x7b 0x80 0x81
      ∷ [];
}

abbrev pub dxp480t_cpu : Wires
dxp480t_cpu = record {
  hwmon = hwmon_channel "cpu" 3 3 ∷ [];
  direct = direct_channel "cpu" 0x17 0x73 0x0f 0x1a ∷ [];
}

abbrev pub dxp480t_all : Wires
dxp480t_all = record {
  hwmon = hwmon_channel "sys1" 2 2 ∷ hwmon_channel "sys2" 4 4 ∷ [];
  direct =
      direct_channel "sys1" 0x16 0x6b 0x0e 0x19 ∷ direct_channel "sys2" 0x1e 0x7b 0x80 0x81 ∷ [];
}

unfoldable pub dxp480t_target : Bytes → Option Wires
dxp480t_target fan_id =
    if str_is fan_id "cpu"
    then some dxp480t_cpu
    else if str_is fan_id "all"
    then some dxp480t_all
    else none

unfoldable pub dxp480t_map : FanMap
unfolding dxp480t_target
dxp480t_map = record { status = dxp480t_status; target = dxp480t_target; needs_force = true }

-- fan/it8613_dxp6800.c
abbrev pub dxp6800_status : Wires
dxp6800_status = record {
  hwmon = hwmon_channel "cpu" 2 2 ∷ hwmon_channel "sys1" 3 3 ∷ hwmon_channel "sys2" 4 4 ∷ [];
  direct =
      direct_channel "cpu" 0x16 0x6b 0x0e 0x19
      ∷ direct_channel "sys1" 0x17 0x73 0x0f 0x1a
      ∷ direct_channel "sys2" 0x1e 0x7b 0x80 0x81
      ∷ [];
}

abbrev pub dxp6800_cpu : Wires
dxp6800_cpu = record {
  hwmon = hwmon_channel "cpu" 2 2 ∷ [];
  direct = direct_channel "cpu" 0x16 0x6b 0x0e 0x19 ∷ [];
}

abbrev pub dxp6800_sys : Wires
dxp6800_sys = record {
  hwmon = hwmon_channel "sys1" 3 3 ∷ hwmon_channel "sys2" 4 4 ∷ [];
  direct =
      direct_channel "sys1" 0x17 0x73 0x0f 0x1a ∷ direct_channel "sys2" 0x1e 0x7b 0x80 0x81 ∷ [];
}

unfoldable pub dxp6800_target : Bytes → Option Wires
dxp6800_target fan_id =
    if str_is fan_id "cpu"
    then some dxp6800_cpu
    else if str_is fan_id "sys"
    then some dxp6800_sys
    else none

unfoldable pub dxp6800_map : FanMap
unfolding dxp6800_target
dxp6800_map = record { status = dxp6800_status; target = dxp6800_target; needs_force = true }

-- fan/it8613_dxp6800plus.c
abbrev pub dxp6800plus_status : Wires
dxp6800plus_status = record {
  hwmon = hwmon_channel "cpu" 2 2 ∷ hwmon_channel "sys1" 3 3 ∷ hwmon_channel "sys2" 4 4 ∷ [];
  direct =
      direct_channel "cpu" 0x16 0x6b 0x0e 0x19
      ∷ direct_channel "sys1" 0x17 0x73 0x0f 0x1a
      ∷ direct_channel "sys2" 0x1e 0x7b 0x80 0x81
      ∷ [];
}

abbrev pub dxp6800plus_cpu : Wires
dxp6800plus_cpu = record {
  hwmon = hwmon_channel "cpu" 2 2 ∷ [];
  direct = direct_channel "cpu" 0x16 0x6b 0x0e 0x19 ∷ [];
}

abbrev pub dxp6800plus_sys : Wires
dxp6800plus_sys = record {
  hwmon = hwmon_channel "sys1" 3 3 ∷ hwmon_channel "sys2" 4 4 ∷ [];
  direct =
      direct_channel "sys1" 0x17 0x73 0x0f 0x1a ∷ direct_channel "sys2" 0x1e 0x7b 0x80 0x81 ∷ [];
}

unfoldable pub dxp6800plus_target : Bytes → Option Wires
dxp6800plus_target fan_id =
    if str_is fan_id "cpu"
    then some dxp6800plus_cpu
    else if str_is fan_id "sys"
    then some dxp6800plus_sys
    else none

unfoldable pub dxp6800plus_map : FanMap
unfolding dxp6800plus_target
dxp6800plus_map = record {
  status = dxp6800plus_status;
  target = dxp6800plus_target;
  needs_force = true;
}

-- fan/it8613_dxp6800pro.c
abbrev pub dxp6800pro_status : Wires
dxp6800pro_status = record {
  hwmon = hwmon_channel "cpu" 2 2 ∷ hwmon_channel "sys1" 3 3 ∷ hwmon_channel "sys2" 4 4 ∷ [];
  direct =
      direct_channel "cpu" 0x16 0x6b 0x0e 0x19
      ∷ direct_channel "sys1" 0x17 0x73 0x0f 0x1a
      ∷ direct_channel "sys2" 0x1e 0x7b 0x80 0x81
      ∷ [];
}

abbrev pub dxp6800pro_cpu : Wires
dxp6800pro_cpu = record {
  hwmon = hwmon_channel "cpu" 2 2 ∷ [];
  direct = direct_channel "cpu" 0x16 0x6b 0x0e 0x19 ∷ [];
}

abbrev pub dxp6800pro_sys : Wires
dxp6800pro_sys = record {
  hwmon = hwmon_channel "sys1" 3 3 ∷ hwmon_channel "sys2" 4 4 ∷ [];
  direct =
      direct_channel "sys1" 0x17 0x73 0x0f 0x1a ∷ direct_channel "sys2" 0x1e 0x7b 0x80 0x81 ∷ [];
}

unfoldable pub dxp6800pro_target : Bytes → Option Wires
dxp6800pro_target fan_id =
    if str_is fan_id "cpu"
    then some dxp6800pro_cpu
    else if str_is fan_id "sys"
    then some dxp6800pro_sys
    else none

unfoldable pub dxp6800pro_map : FanMap
unfolding dxp6800pro_target
dxp6800pro_map = record {
  status = dxp6800pro_status;
  target = dxp6800pro_target;
  needs_force = true;
}
