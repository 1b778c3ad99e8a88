-- ===== src/Network.antt =====
-- Wake-on-LAN, network/wol.c. The network is a parameter: `get_wol name` and `set_wol name options`
-- are the requests ETHTOOL_GWOL and ETHTOOL_SWOL of an ioctl on the interface. The callers give a
-- place for the policy, so that its check for NULL is left out.
pub mod Pci
pub mod Models
pub mod Laws
use ugreen_nas_hardware.Prelude.{
  ℕ, ◌+◌, Bool, true, false, not, ◌&&◌, ◌||◌, List, [], ◌∷◌, ◌++◌, Option, none, some, map, ltb,
  leb, ◌==◌, if◌then◌else◌, bit_and, length, Bytes, Result, ok, err, ◌>>=◌, and_then, einval, eio,
  enodev, e2big, eopnotsupp, euclean,
}
use Pci.{
  max_runtime_interfaces, name_size, WolCalls, present_and_physical, discover_renamed_interfaces,
}

pub data WolPolicy : Type 0 where
  unknown off on : WolPolicy

-- What ETHTOOL_GWOL answers.
pub record WolInfo : Type 0 where
  pub supported : ℕ
  pub wolopts : ℕ

-- The network, and every setting that was tried, the first one first.
pub record WolWorld (Net : Type 0) : Type 0 where
  pub net : Net
  pub writes : List (Bytes × ℕ)

-- WAKE_MAGIC
abbrev pub wake_magic : ℕ
wake_magic = 32

abbrev pub valid_name : Option Bytes → Bool
valid_name none = false
valid_name (some []) = false
valid_name (some (c ∷ cs)) = ltb (length (c ∷ cs)) name_size

-- The names of the loop; each one is checked.
unfoldable pub valid_names : List (Option Bytes) → Result (List Bytes)
valid_names [] = ok []
valid_names (none ∷ names) = err einval
valid_names (some name ∷ names) =
    let rest = valid_names names in
    if valid_name (some name) then (rest >>= λ valid. ok (name ∷ valid)) else err einval

-- `none` for NULL.
unfoldable pub validate_interfaces : Option (List (Option Bytes)) → Result (List Bytes)
unfolding valid_names
validate_interfaces none = err enodev
validate_interfaces (some []) = err enodev
validate_interfaces (some (name ∷ names)) = valid_names (name ∷ names)

-- With the names that were validated.
unfoldable pub select_valid : WolCalls → ℕ → List Bytes → Result (List Bytes)
unfolding present_and_physical discover_renamed_interfaces
select_valid calls renamed_count names =
    if (renamed_count == 0) || ltb max_runtime_interfaces renamed_count
    then err einval
    else if present_and_physical calls names
    then ok names
    else discover_renamed_interfaces calls renamed_count

unfoldable pub select_interfaces : WolCalls → Option (List (Option Bytes)) → ℕ → Result (List Bytes)
unfolding validate_interfaces select_valid
select_interfaces calls interfaces renamed_count =
    validate_interfaces interfaces >>= λ names. select_valid calls renamed_count names

abbrev pub count_of : Option (List (Option Bytes)) → ℕ
count_of none = 0
count_of (some names) = length names

-- The checks and calls before the first request: the interfaces to work on.
unfoldable pub open_interfaces : WolCalls → Option (List (Option Bytes)) → ℕ → Result (List Bytes)
unfolding select_interfaces
open_interfaces calls interfaces renamed_count =
    if ltb max_runtime_interfaces (count_of interfaces) || ltb max_runtime_interfaces renamed_count
    then err e2big
    else select_interfaces calls interfaces renamed_count >>= λ names.
        calls.socket >>= λ _. ok names

abbrev pub policy_of : WolInfo → WolPolicy
policy_of info = if bit_and info.wolopts wake_magic == 0 then off else on

-- What was observed before, joined with another interface; different ones are refused.
abbrev pub joined : WolPolicy → WolPolicy → Result WolPolicy
joined unknown current = ok current
joined off unknown = err euclean
joined off off = ok off
joined off on = err euclean
joined on unknown = err euclean
joined on off = err euclean
joined on on = ok on

abbrev pub options_of : WolPolicy → Result ℕ
options_of unknown = err einval
options_of off = ok 0
options_of on = ok wake_magic

-- `policy == UGREENCTL_WOL_ON ? WAKE_MAGIC : 0U`
abbrev pub readback_options : WolPolicy → ℕ
readback_options unknown = 0
readback_options off = 0
readback_options on = wake_magic

module _ {Net : Type 0} (get_wol : Bytes → Net → Result WolInfo × Net)
    (set_wol : Bytes → ℕ → Net → Result (Unit {0}) × Net) where
  unfoldable pub query_interface : Bytes → WolWorld Net → Result WolInfo × WolWorld Net
  query_interface name w =
      let (result, net') = get_wol name w.net in
      and_then (result, record w { net = net' })
        (λ info w'.
          (if bit_and info.supported wake_magic == 0 then err eopnotsupp else ok info, w'))

  unfoldable pub read_each : List Bytes → WolPolicy → WolWorld Net → Result WolPolicy × WolWorld Net
  unfolding query_interface
  read_each [] observed w = (ok observed, w)
  read_each (name ∷ names) observed w = and_then (query_interface name w) (λ info w₁.
      and_then (joined observed (policy_of info), w₁) (λ both w₂. read_each names both w₂))

  unfoldable pub wol_read_policy_with_renamed_count :
      WolCalls → Option (List (Option Bytes)) → ℕ → WolWorld Net → Result WolPolicy × WolWorld Net
  unfolding open_interfaces read_each
  wol_read_policy_with_renamed_count calls interfaces renamed_count w =
      and_then (open_interfaces calls interfaces renamed_count, w)
        (λ names w'. read_each names unknown w')

  unfoldable pub wol_read_policy :
      WolCalls → Option (List (Option Bytes)) → WolWorld Net → Result WolPolicy × WolWorld Net
  unfolding wol_read_policy_with_renamed_count
  wol_read_policy calls interfaces w =
      wol_read_policy_with_renamed_count calls interfaces (count_of interfaces) w

  -- Every interface answers and can do it.
  unfoldable pub query_each : List Bytes → WolWorld Net → Result (Unit {0}) × WolWorld Net
  unfolding query_interface
  query_each [] w = (ok tt, w)
  query_each (name ∷ names) w = and_then (query_interface name w) (λ _ w'. query_each names w')

  unfoldable pub set_interface : Bytes → ℕ → WolWorld Net → Result (Unit {0}) × WolWorld Net
  set_interface name options w =
      let (result, net') = set_wol name options w.net in
      (result, record { net = net'; writes = w.writes ++ (name, options) ∷ [] })

  unfoldable pub set_each : List Bytes → ℕ → WolWorld Net → Result (Unit {0}) × WolWorld Net
  unfolding set_interface
  set_each [] options w = (ok tt, w)
  set_each (name ∷ names) options w =
      and_then (set_interface name options w) (λ _ w'. set_each names options w')

  -- After the settings: the policy is read again, with what the system answers `later`.
  unfoldable pub confirm :
      WolCalls → List Bytes → ℕ → WolWorld Net → Result (Unit {0}) × WolWorld Net
  unfolding wol_read_policy
  confirm later names options w =
      and_then (wol_read_policy later (some (map some names)) w)
        (λ policy w'. (if readback_options policy == options then ok tt else err eio, w'))

  unfoldable pub set_names :
      WolCalls → List Bytes → ℕ → WolWorld Net → Result (Unit {0}) × WolWorld Net
  unfolding query_each set_each confirm
  set_names later names options w =
      and_then (query_each names w)
        (λ _ w₁. and_then (set_each names options w₁) (λ _ w₂. confirm later names options w₂))

  unfoldable pub wol_set_policy_with_renamed_count :
      WolCalls
      → WolCalls
      → Option (List (Option Bytes))
      → ℕ
      → WolPolicy
      → WolWorld Net
      → Result (Unit {0}) × WolWorld Net
  unfolding open_interfaces set_names
  wol_set_policy_with_renamed_count calls later interfaces renamed_count policy w =
      and_then (options_of policy, w)
        (λ options w₁.
          and_then (open_interfaces calls interfaces renamed_count, w₁)
            (λ names w₂. set_names later names options w₂))

  unfoldable pub wol_set_policy :
      WolCalls
      → WolCalls
      → Option (List (Option Bytes))
      → WolPolicy
      → WolWorld Net
      → Result (Unit {0}) × WolWorld Net
  unfolding wol_set_policy_with_renamed_count
  wol_set_policy calls later interfaces policy w =
      wol_set_policy_with_renamed_count calls later interfaces (count_of interfaces) policy w
