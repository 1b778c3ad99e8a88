-- ===== src/Wake/Profiles/Laws.antt =====
-- The tables for the RTC and for Wake-on-LAN know the same models.
use ugreen_nas_hardware.Prelude.{
  ◌≡◌, ◌∙◌, refl, sym, ap, Bool, true, false, List, [], ◌∷◌, map, Option, none, some, if◌then◌else◌,
  Bytes,
}
use ugreen_nas_hardware.Identity.{MachineIdentity}
use ugreen_nas_hardware.Wake.Profiles.{
  RtcProfile, WolProfile, matches, find_rtc, find_wol, rtc_profiles, wol_profiles, rtc_match,
  wol_match,
}

-- What a machine is known by, and the model's name.
pub record ModelKey : Type 0 where
  pub id : Bytes
  pub product : Bytes
  pub dt_model : Option Bytes
  pub dt_compatible : Option Bytes

abbrev pub rtc_key : RtcProfile → ModelKey
rtc_key p = record {
  id = p.id;
  product = p.product;
  dt_model = p.dt_model;
  dt_compatible = p.dt_compatible;
}

abbrev pub wol_key : WolProfile → ModelKey
wol_key p = record {
  id = p.id;
  product = p.product;
  dt_model = p.dt_model;
  dt_compatible = p.dt_compatible;
}

abbrev pub key_of : {A : Type 0} → (A → ModelKey) → Option A → Option ModelKey
key_of key none = none
key_of key (some p) = some (key p)

find_key : Option MachineIdentity → List ModelKey → Option ModelKey
find_key i [] = none
find_key i (k ∷ ks) =
    let rest = find_key i ks in
    if matches i k.product k.dt_model k.dt_compatible then some k else rest

key_of-if :
    {A : Type 0} (key : A → ModelKey) (b : Bool) (p : A) (rest : Option A)
    → key_of key (if b then some p else rest) ≡ (if b then some (key p) else key_of key rest)
key_of-if key true p rest = refl
key_of-if key false p rest = refl

key_of-find_rtc :
    (i : Option MachineIdentity) (ps : List RtcProfile)
    → key_of rtc_key (find_rtc i ps) ≡ find_key i (map rtc_key ps)
unfolding find_rtc find_key
key_of-find_rtc i [] = refl
key_of-find_rtc i (p ∷ ps) =
    key_of-if rtc_key (matches i p.product p.dt_model p.dt_compatible) p (find_rtc i ps)
    ∙ ap (λ r. if matches i p.product p.dt_model p.dt_compatible then some (rtc_key p) else r)
        (key_of-find_rtc i ps)

key_of-find_wol :
    (i : Option MachineIdentity) (ps : List WolProfile)
    → key_of wol_key (find_wol i ps) ≡ find_key i (map wol_key ps)
unfolding find_wol find_key
key_of-find_wol i [] = refl
key_of-find_wol i (p ∷ ps) =
    key_of-if wol_key (matches i p.product p.dt_model p.dt_compatible) p (find_wol i ps)
    ∙ ap (λ r. if matches i p.product p.dt_model p.dt_compatible then some (wol_key p) else r)
        (key_of-find_wol i ps)

same_keys : map rtc_key rtc_profiles ≡ map wol_key wol_profiles
unfolding rtc_profiles wol_profiles
same_keys = refl

-- For every machine the two tables give the same model, or both give none.
pub rtc_match-wol_match :
    (i : Option MachineIdentity) → key_of rtc_key (rtc_match i) ≡ key_of wol_key (wol_match i)
unfolding rtc_match wol_match
rtc_match-wol_match i =
    key_of-find_rtc i rtc_profiles
    ∙ ap (find_key i) same_keys
    ∙ sym (key_of-find_wol i wol_profiles)
