-- ===== src/Examples/Fans.antt =====
-- The fans of a DXP6800 where hwmon has no IT8613.
use ugreen_nas_hardware.Prelude.{◌≡◌, ◌⊎◌, refl, true, false, [], Bytes, codes, ok}
use ugreen_nas_hardware.Fan.Hwmon.{HwmonCalls}
use ugreen_nas_hardware.Fan.Maps.{FanWorld, read_fans, set_fan_pwm}
use ugreen_nas_hardware.Fan.Maps.Tables.{dxp6800_map}
use ugreen_nas_hardware.Fan.Maps.Laws.Release.{IsFree, MayTouch, fans-IsFree, set_fan_pwm-MayTouch}
use ugreen_nas_hardware.Examples.Superio.{Chip, out_byte, in_byte, machine, released}
use ugreen_nas_hardware.Examples.Superio as Chips
use ugreen_nas_hardware.Examples.Hwmon.{read_file, write_file, wait, world, calls}

abbrev absent : HwmonCalls
absent = record calls { entries = ok [] }

abbrev fan_world : FanWorld (Bytes × Bytes) Chip
fan_world = record { hwmon = world; machine = machine }

fans-IsFree_example :
    IsFree
      (read_fans read_file write_file wait out_byte in_byte absent Chips.calls dxp6800_map
        fan_world).1
    × IsFree
        (set_fan_pwm read_file write_file wait out_byte in_byte absent Chips.calls dxp6800_map true
          (codes "sys")
          120
          fan_world).1
fans-IsFree_example =
    fans-IsFree read_file write_file wait out_byte in_byte absent Chips.calls dxp6800_map true
      (codes "sys") 120 fan_world (refl, released)

set_fan_pwm-MayTouch_example :
    ((set_fan_pwm read_file write_file wait out_byte in_byte absent Chips.calls dxp6800_map false
        (codes "sys")
        120
        fan_world).1.machine
      ≡ machine)
    ⊎ MayTouch read_file write_file wait out_byte in_byte absent Chips.calls dxp6800_map false
        (codes "sys")
        120
        fan_world
set_fan_pwm-MayTouch_example =
    set_fan_pwm-MayTouch read_file write_file wait out_byte in_byte absent Chips.calls dxp6800_map
      false (codes "sys") 120 fan_world
