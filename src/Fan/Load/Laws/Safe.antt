-- ===== src/Fan/Load/Laws/Safe.antt =====
-- Whatever the file holds, only a configuration that passes the check is loaded.
use ugreen_nas_hardware.Prelude.{
  [], ◌≡◌, arith, inl, inr, some, Bytes, Result, Result-cases, ok, err, ◌>>=◌,
}
use ugreen_nas_hardware.Fan.Curve.{FanCurveConfig}
use ugreen_nas_hardware.Fan.Config.{config_defaults, validate_config}
use ugreen_nas_hardware.Fan.Config.Valid.{IsValid, validate_config_iff}
use ugreen_nas_hardware.Fan.Load.{
  lines_from, line_room, read_lines, complete, finish_config, load_config,
}

finish_config-IsValid : (base c : FanCurveConfig) → finish_config base ≡ ok c → IsValid c
unfolding finish_config
finish_config-IsValid base c e = elim (Result-cases (validate_config (some (complete base)))) [
  | inl passed ↦
      let same : complete base ≡ c = ground (arith, passed) in
      (validate_config_iff c).0 (rw (← same) passed)
  | inr refused ↦ ground (arith, refused.1)
]

lines_loaded :
    (r : Result FanCurveConfig) (c : FanCurveConfig)
    → (r >>= λ base. finish_config base) ≡ ok c
    → IsValid c
lines_loaded (ok base) c e = finish_config-IsValid base c e
lines_loaded (err code) c e = cc

-- For a file of any bytes: where loading succeeds, the configuration passes the check.
pub load_config-IsValid :
    (text : Bytes) (c : FanCurveConfig) → load_config (some (ok text)) ≡ ok c → IsValid c
unfolding load_config
load_config-IsValid text c e =
    lines_loaded (read_lines config_defaults (lines_from line_room [] text)) c e
