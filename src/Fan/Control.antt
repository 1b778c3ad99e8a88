-- ===== src/Fan/Control.antt =====
-- From the configuration file and the sensors to the PWM values.
use ugreen_nas_hardware.Prelude.{◌≤◌, ◌≡◌, Option, some, List, Bytes, Result, ok}
use ugreen_nas_hardware.Fan.Curve.{FanCurveConfig, plan_of}
use ugreen_nas_hardware.Fan.Curve.Plan.{plan_of_bounds}
use ugreen_nas_hardware.Fan.Config.Valid.{IsValid}
use ugreen_nas_hardware.Fan.Load.{load_config}
use ugreen_nas_hardware.Fan.Load.Laws.Safe.{load_config-IsValid}
use ugreen_nas_hardware.Fan.Snapshot.{HwmonEntry, read_thermal_snapshot}
use ugreen_nas_hardware.Fan.Snapshot.Ata.{Drive}
use ugreen_nas_hardware.Fan.Snapshot.Laws.{
  read_thermal_snapshot-ArePlausible, ArePlausible-IsReading,
}

-- Whatever the bytes of the configuration file, the sensor files and the answers of the drives: a
-- configuration that loads passes the check, and the plan for the readings, or for failing to read
-- them, gives each channel a PWM value between the minimum of the configuration, which is at least
-- 40, and 255.
pub load_config-read_thermal_snapshot :
    (text : Bytes) (c : FanCurveConfig) (root : Result (List HwmonEntry))
    (drives : Option (List Drive))
    → load_config (some (ok text)) ≡ ok c
    → let plan = (plan_of c (read_thermal_snapshot root drives).1).1 in
      IsValid c
      × (40 ≤ c.minimum_pwm)
      × (c.minimum_pwm ≤ plan.cpu_pwm)
      × (plan.cpu_pwm ≤ 255)
      × (c.minimum_pwm ≤ plan.system_pwm)
      × (plan.system_pwm ≤ 255)
load_config-read_thermal_snapshot text c root drives e =
    let s = (read_thermal_snapshot root drives).1 in
    let valid = load_config-IsValid text c e in
    let reading = ArePlausible-IsReading s (read_thermal_snapshot-ArePlausible root drives) in
    let bounds = plan_of_bounds c valid.safe s reading in
    (valid, bounds.0, bounds.1, bounds.2, bounds.3, bounds.4)
