-- ===== src/Wake/Profiles.antt =====
-- The models that can be woken, models/wake_profiles.c.
pub mod Laws
use ugreen_nas_hardware.Prelude.{
  ℕ, Bool, true, false, ◌&&◌, List, [], ◌∷◌, Option, none, some, String, if◌then◌else◌, str_is,
  Bytes, bytes_eq, codes,
}
use ugreen_nas_hardware.Identity.{MachineIdentity, has_compatible}

-- Texts that are `none` are NULL.
pub record RtcProfile : Type 0 where
  pub id : Bytes
  pub product : Bytes
  pub dt_model : Option Bytes
  pub dt_compatible : Option Bytes
  pub rtc_name : Bytes
  pub rtc_of_path : Option Bytes
  pub resolution_seconds : ℕ

pub record WolProfile : Type 0 where
  pub id : Bytes
  pub product : Bytes
  pub dt_model : Option Bytes
  pub dt_compatible : Option Bytes
  pub ethernet_of_path : Option Bytes
  pub ethernet_compatible : Option Bytes
  pub automatic_pci_count : ℕ

-- The macro `RTC`.
abbrev pub rtc_dmi : String → String → RtcProfile
rtc_dmi id product = record {
  id = codes id;
  product = codes product;
  dt_model = none;
  dt_compatible = none;
  rtc_name = codes "rtc_cmos";
  rtc_of_path = none;
  resolution_seconds = 1;
}

-- The macro `WOL`.
abbrev pub wol_dmi : String → String → ℕ → WolProfile
wol_dmi id product count = record {
  id = codes id;
  product = codes product;
  dt_model = none;
  dt_compatible = none;
  ethernet_of_path = none;
  ethernet_compatible = none;
  automatic_pci_count = count;
}

-- The two boards that are known by their device tree.
abbrev pub rtc_board : String → String → String → String → String → RtcProfile
rtc_board id product model compatible of_path = record {
  id = codes id;
  product = codes product;
  dt_model = some (codes model);
  dt_compatible = some (codes compatible);
  rtc_name = codes "hym8563";
  rtc_of_path = some (codes of_path);
  resolution_seconds = 60;
}

abbrev pub wol_board : String → String → String → String → Option Bytes → Option Bytes → WolProfile
wol_board id product model compatible of_path ethernet = record {
  id = codes id;
  product = codes product;
  dt_model = some (codes model);
  dt_compatible = some (codes compatible);
  ethernet_of_path = of_path;
  ethernet_compatible = ethernet;
  automatic_pci_count = 0;
}

unfoldable pub rtc_profiles : List RtcProfile
rtc_profiles =
    rtc_dmi "dh2600" "DH2600"
    ∷ rtc_dmi "dx4600" "DX4600"
    ∷ rtc_dmi "dx4600plus" "DX4600+"
    ∷ rtc_dmi "dx4600pro" "DX4600 Pro"
    ∷ rtc_dmi "dx4700" "DX4700"
    ∷ rtc_dmi "dx4700plus" "DX4700+"
    ∷ rtc_dmi "dxp2800" "DXP2800"
    ∷ rtc_dmi "dxp2800gt" "DXP2800 GT"
    ∷ rtc_dmi "dxp4800" "DXP4800"
    ∷ rtc_dmi "dxp4800s" "DXP4800S"
    ∷ rtc_dmi "dxp4800plus" "DXP4800 Plus"
    ∷ rtc_dmi "dxp4800pro" "DXP4800 Pro"
    ∷ rtc_dmi "dxp4800gt" "DXP4800 GT"
    ∷ rtc_dmi "dxp480tplus" "DXP480T Plus"
    ∷ rtc_dmi "dxp6800" "DXP6800"
    ∷ rtc_dmi "dxp6800plus" "DXP6800 Plus"
    ∷ rtc_dmi "dxp6800pro" "DXP6800 Pro"
    ∷ rtc_dmi "dxp6800ultra" "DXP6800 Ultra"
    ∷ rtc_dmi "dxp8800" "DXP8800"
    ∷ rtc_dmi "dxp8800plus" "DXP8800 Plus"
    ∷ rtc_dmi "dxp8800pro" "DXP8800 Pro"
    ∷ rtc_dmi "dxp8800ultra" "DXP8800 Ultra"
    ∷ rtc_dmi "idx6011pro" "iDX6011 Pro"
    ∷ rtc_board "dh2300" "DH2300" "UGREEN RK3576 DH2300 Board" "rockchip,rk3576"
        "/i2c@2ac50000/hym8563@51"
    ∷ rtc_board "dh4300plus" "DH4300 Plus" "UGREEN RK3588C DH4300Plus Board" "rockchip,rk3588"
        "/i2c@fec80000/hym8563@51"
    ∷ []

unfoldable pub wol_profiles : List WolProfile
wol_profiles =
    wol_dmi "dh2600" "DH2600" 0
    ∷ wol_dmi "dx4600" "DX4600" 2
    ∷ wol_dmi "dx4600plus" "DX4600+" 2
    ∷ wol_dmi "dx4600pro" "DX4600 Pro" 2
    ∷ wol_dmi "dx4700" "DX4700" 0
    ∷ wol_dmi "dx4700plus" "DX4700+" 0
    ∷ wol_dmi "dxp2800" "DXP2800" 0
    ∷ wol_dmi "dxp2800gt" "DXP2800 GT" 0
    ∷ wol_dmi "dxp4800" "DXP4800" 2
    ∷ wol_dmi "dxp4800s" "DXP4800S" 2
    ∷ wol_dmi "dxp4800plus" "DXP4800 Plus" 2
    ∷ wol_dmi "dxp4800pro" "DXP4800 Pro" 2
    ∷ wol_dmi "dxp4800gt" "DXP4800 GT" 0
    ∷ wol_dmi "dxp480tplus" "DXP480T Plus" 1
    ∷ wol_dmi "dxp6800" "DXP6800" 0
    ∷ wol_dmi "dxp6800plus" "DXP6800 Plus" 2
    ∷ wol_dmi "dxp6800pro" "DXP6800 Pro" 2
    ∷ wol_dmi "dxp6800ultra" "DXP6800 Ultra" 0
    ∷ wol_dmi "dxp8800" "DXP8800" 0
    ∷ wol_dmi "dxp8800plus" "DXP8800 Plus" 0
    ∷ wol_dmi "dxp8800pro" "DXP8800 Pro" 0
    ∷ wol_dmi "dxp8800ultra" "DXP8800 Ultra" 0
    ∷ wol_dmi "idx6011pro" "iDX6011 Pro" 0
    ∷ wol_board "dh2300" "DH2300" "UGREEN RK3576 DH2300 Board" "rockchip,rk3576"
        (some (codes "/ethernet@2a220000")) (some (codes "rockchip,rk3576-gmac"))
    ∷ wol_board "dh4300plus" "DH4300 Plus" "UGREEN RK3588C DH4300Plus Board" "rockchip,rk3588" none
        none
    ∷ []

-- `strcmp(a, b) == 0`, with the device-tree model first: with one, only the device tree counts.
unfoldable pub matches : Option MachineIdentity → Bytes → Option Bytes → Option Bytes → Bool
unfolding has_compatible
matches none product dt_model dt_compatible = false
matches (some i) product (some model) dt_compatible =
    str_is i.source "devicetree"
    && bytes_eq i.product_name model
    && has_compatible (some i) dt_compatible
matches (some i) product none dt_compatible =
    str_is i.source "dmi" && bytes_eq i.product_name product

unfoldable pub find_rtc : Option MachineIdentity → List RtcProfile → Option RtcProfile
unfolding matches
find_rtc i [] = none
find_rtc i (p ∷ ps) =
    let rest = find_rtc i ps in
    if matches i p.product p.dt_model p.dt_compatible then some p else rest

unfoldable pub find_wol : Option MachineIdentity → List WolProfile → Option WolProfile
unfolding matches
find_wol i [] = none
find_wol i (p ∷ ps) =
    let rest = find_wol i ps in
    if matches i p.product p.dt_model p.dt_compatible then some p else rest

unfoldable pub rtc_match : Option MachineIdentity → Option RtcProfile
unfolding find_rtc rtc_profiles
rtc_match i = find_rtc i rtc_profiles

unfoldable pub wol_match : Option MachineIdentity → Option WolProfile
unfolding find_wol wol_profiles
wol_match i = find_wol i wol_profiles
