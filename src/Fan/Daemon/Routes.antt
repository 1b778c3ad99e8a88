-- ===== src/Fan/Daemon/Routes.antt =====
-- The table of models in core/fan_daemon.c, and which profile may drive which model.
use ugreen_nas_hardware.Prelude.{
  Bool, true, false, List, [], ◌∷◌, Option, none, some, String, Bytes, codes, str_is, if◌then◌else◌,
  Result, ok, err, einval,
}
use ugreen_nas_hardware.Fan.Curve.{FanCurveConfig}

pub data FanChannel : Type 0 where
  channel_cpu channel_system : FanChannel

pub record FanTarget : Type 0 where
  pub name : String
  pub channel : FanChannel

-- `targets` is the array up to its NULL entry.
pub record ModelRoute : Type 0 where
  pub dmi_product : String
  pub id : String
  pub targets : List FanTarget
  pub requires_force : Bool

abbrev pub sys_only : List FanTarget
sys_only = record { name = "sys"; channel = channel_system } ∷ []

abbrev pub cpu_and : String → List FanTarget
cpu_and name =
    record { name = "cpu"; channel = channel_cpu }
    ∷ record { name = name; channel = channel_system }
    ∷ []

abbrev pub route : String → String → List FanTarget → Bool → ModelRoute
route dmi_product id targets requires_force = record {
  dmi_product = dmi_product;
  id = id;
  targets = targets;
  requires_force = requires_force;
}

unfoldable pub model_routes : List ModelRoute
model_routes =
    route "DX4600" "dx4600" sys_only true
    ∷ route "DX4600+" "dx4600" sys_only true
    ∷ route "DX4600 Pro" "dx4600" sys_only true
    ∷ route "DXP4800" "dxp4800" sys_only true
    ∷ route "DXP4800 Plus" "dxp4800plus" (cpu_and "sys") false
    ∷ route "DXP4800 Pro" "dxp4800plus" (cpu_and "sys") false
    ∷ route "DXP4800S" "dxp4800s" sys_only true
    ∷ route "DXP480T Plus" "dxp480tplus" (cpu_and "all") false
    ∷ route "DXP6800" "dxp6800" (cpu_and "sys") true
    ∷ route "DXP6800 Plus" "dxp6800plus" (cpu_and "sys") true
    ∷ route "DXP6800 Pro" "dxp6800pro" (cpu_and "sys") true
    ∷ []

unfoldable pub find_in : List ModelRoute → Bytes → Option ModelRoute
find_in [] product = none
find_in (r ∷ rs) product = if str_is product r.dmi_product then some r else find_in rs product

unfoldable pub find_model_route : Bytes → Option ModelRoute
unfolding find_in model_routes
find_model_route product = find_in model_routes product

unfoldable pub stock_profile_for_route : ModelRoute → Option String
stock_profile_for_route r =
    let id = codes r.id in
    if str_is id "dx4600"
    then some "stock-4600"
    else if str_is id "dxp4800"
    then some "stock-4800"
    else if str_is id "dxp4800s"
    then some "stock-4800s"
    else if str_is id "dxp4800plus"
    then some "stock-4800plus"
    else if str_is id "dxp480tplus"
    then some "stock-480tplus"
    else if str_is id "dxp6800"
    then some "stock-6800"
    else if str_is id "dxp6800pro"
    then some "stock-6800pro"
    else if str_is id "dxp6800plus"
    then some "stock-6800plus"
    else none

unfoldable pub matches_expected : Bytes → Option String → Result (Unit {0})
matches_expected profile none = err einval
matches_expected profile (some expected) = if str_is profile expected then ok tt else err einval

unfoldable pub profile_matches_route : FanCurveConfig → ModelRoute → Result (Unit {0})
unfolding matches_expected
profile_matches_route config r =
    if str_is config.profile "custom"
    then ok tt
    else matches_expected config.profile (stock_profile_for_route r)
