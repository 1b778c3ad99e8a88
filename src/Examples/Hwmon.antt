-- ===== src/Examples/Hwmon.antt =====
-- Manual PWM on the files of one device.
use ugreen_nas_hardware.Prelude.{
  ℕ, refl, false, [], ◌∷◌, ◌++◌, some, Bytes, codes, Result, ok, length, if◌then◌else◌, bytes_eq,
}
use ugreen_nas_hardware.Fan.Hwmon.{HwmonWorld, HwmonChannel, HwmonCalls, hwmon_set_manual_pwm}
use ugreen_nas_hardware.Fan.Hwmon.Find.{find_it8613_hwmon}
use ugreen_nas_hardware.Prelude.Written.{Wrote}
use ugreen_nas_hardware.Fan.Hwmon.Sequence.{writes_of, plan_found, hwmon_set_manual_pwm-Wrote}

-- The contents of the two nodes of a channel.
unfoldable pub read_file : Bytes → Bytes × Bytes → Result Bytes × (Bytes × Bytes)
read_file path (enable, duty) = (
  ok (if bytes_eq path (codes "/sys/class/hwmon/hwmon2/pwm2_enable") then enable else duty),
  (enable, duty),
)

unfoldable pub write_file : Bytes → Bytes → Bytes × Bytes → Result ℕ × (Bytes × Bytes)
write_file path text (enable, duty) = (
  ok (length text),
  if bytes_eq path (codes "/sys/class/hwmon/hwmon2/pwm2_enable")
      then (text, duty)
      else (enable, text),
)

unfoldable pub wait : Bytes × Bytes → Bytes × Bytes
wait files = files

abbrev pub world : HwmonWorld (Bytes × Bytes)
world = record { files = (codes "2", codes "80"); writes = []; lock_open = false }

abbrev pub calls : HwmonCalls
calls = record {
  exists = λ path. false;
  open_lock = ok tt;
  flock_lock = ok tt;
  root = codes "/sys/class/hwmon";
  entries = ok (
      record { d_name = codes "hwmon1"; name_text = ok (codes "coretemp") }
      ∷ record { d_name = codes "hwmon2"; name_text = ok (codes "it8613" ++ 10 ∷ []) }
      ∷ []);
}

abbrev channel : HwmonChannel
channel = record { id = some (codes "case"); pwm_index = 2; fan_index = 3 }

hwmon_set_manual_pwm-Wrote_example :
    Wrote writes_of []
      (plan_found (find_it8613_hwmon calls.root calls.entries) (channel ∷ []) 120)
      (hwmon_set_manual_pwm read_file write_file wait calls (some (channel ∷ [])) 120 world)
hwmon_set_manual_pwm-Wrote_example =
    hwmon_set_manual_pwm-Wrote read_file write_file wait calls (channel ∷ []) 120 world refl
