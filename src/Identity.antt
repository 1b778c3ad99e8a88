-- ===== src/Identity.antt =====
-- The identity of the machine, core/identity.c; reading it from /sys is left out.
use ugreen_nas_hardware.Prelude.{
  Bool, false, ◌&&◌, ◌||◌, ◌==◌, not, [], ◌∷◌, ◌++◌, Option, none, some, if◌then◌else◌, str_is,
  Bytes, bytes_eq, codes,
}

-- The fields that the models are chosen by.
pub record MachineIdentity : Type 0 where
  pub source : Bytes
  pub product_name : Bytes
  pub compatible : Bytes

-- `strchr(s, '|') != NULL`
unfoldable pub has_bar : Bytes → Bool
has_bar [] = false
has_bar (c ∷ cs) = let more = has_bar cs in (c == b'|') || more

-- Whether `token` stands between two bars of `s`, where `segment` was read since the last one.
unfoldable pub has_token : Bytes → Bytes → Bytes → Bool
has_token token segment [] = bytes_eq segment token
has_token token segment (c ∷ cs) =
    let next = has_token token [] cs in
    let longer = has_token token (segment ++ c ∷ []) cs in
    if c == b'|' then bytes_eq segment token || next else longer

unfoldable pub has_compatible : Option MachineIdentity → Option Bytes → Bool
unfolding has_bar has_token
has_compatible (some i) (some (c ∷ cs)) =
    not (has_bar (c ∷ cs)) && has_token (c ∷ cs) [] i.compatible
has_compatible _ _ = false

-- The canonical name of a board that its device tree proves, or the product name.
unfoldable pub identity_model : Option MachineIdentity → Bytes
unfolding has_compatible
identity_model none = []
identity_model (some i) =
    if str_is i.source "devicetree"
      && str_is i.product_name "UGREEN RK3576 DH2300 Board"
      && has_compatible (some i) (some (codes "rockchip,rk3576"))
    then codes "DH2300"
    else if str_is i.source "devicetree"
        && str_is i.product_name "UGREEN RK3588C DH4300Plus Board"
        && has_compatible (some i) (some (codes "rockchip,rk3588"))
    then codes "DH4300 Plus"
    else i.product_name
