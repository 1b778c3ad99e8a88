-- ===== src/Led/Profiles.antt =====
-- The tables of models/led_profiles.c; the text `evidence` of a profile is left out.
pub mod Table
pub mod Laws
use ugreen_nas_hardware.Prelude.{
  ℕ, ◌+◌, ◌^◌, Bool, true, false, not, ◌&&◌, ◌||◌, List, [], ◌∷◌, ◌++◌, Option, none, some, ltb,
  if◌then◌else◌, length, Bytes, String, codes, bytes_eq,
}
use ugreen_nas_hardware.Led.Types.{LedDescriptor, LedProfile}
use Table.{led_profiles}

-- `strcmp(a, b) == 0`, where the second one may be NULL, which no comparison meets.
abbrev pub same_text : Bytes → Option Bytes → Bool
same_text a none = false
same_text a (some b) = bytes_eq a b

-- A profile without a revision stands for all of them.
abbrev pub same_version : Option Bytes → Option Bytes → Bool
same_version given none = true
same_version none (some wanted) = false
same_version (some given) (some wanted) = bytes_eq given wanted

unfoldable pub find_profile : Bytes → Option Bytes → List LedProfile → Option LedProfile
unfolding bytes_eq
find_profile product_name product_version [] = none
find_profile product_name product_version (profile ∷ profiles) =
    let later = find_profile product_name product_version profiles in
    if same_text product_name profile.product_name
      && same_version product_version profile.product_version
    then some profile
    else later

-- A name that is NULL is `none`.
unfoldable pub led_profile_find : Option Bytes → Option Bytes → Option LedProfile
unfolding find_profile
led_profile_find none product_version = none
led_profile_find (some product_name) product_version =
    find_profile product_name product_version led_profiles

-- UGREENCTL_MAX_LEDS
abbrev pub max_leds : ℕ
max_leds = 16

unfoldable pub led_descriptors : Option LedProfile → List LedDescriptor
led_descriptors none = []
led_descriptors (some profile) = if ltb max_leds (length profile.leds) then [] else profile.leds
