-- ===== src/Network/Models.antt =====
-- The interfaces of each model, network/wol_dx*.c: the names of the firmware, and how many renamed
-- interfaces stand for them where the file says so.
use ugreen_nas_hardware.Prelude.{ℕ, List, [], ◌∷◌, Option, some, Bytes, codes, Result}
use ugreen_nas_hardware.Network.Pci.{WolCalls}
use ugreen_nas_hardware.Network.{
  WolPolicy, WolInfo, WolWorld, wol_read_policy, wol_read_policy_with_renamed_count, wol_set_policy,
  wol_set_policy_with_renamed_count,
}

-- network/wol_dx4600.c
abbrev pub dx4600_wol_interfaces : List (Option Bytes)
dx4600_wol_interfaces = some (codes "eth0") ∷ some (codes "eth1") ∷ []

abbrev pub dx4600_renamed_count : ℕ
dx4600_renamed_count = 2

-- network/wol_dxp4800.c
abbrev pub dxp4800_wol_interfaces : List (Option Bytes)
dxp4800_wol_interfaces = some (codes "eth0") ∷ some (codes "eth1") ∷ []

-- network/wol_dxp4800plus.c
abbrev pub dxp4800plus_wol_interfaces : List (Option Bytes)
dxp4800plus_wol_interfaces = some (codes "eth0") ∷ some (codes "eth1") ∷ []

-- network/wol_dxp4800s.c
abbrev pub dxp4800s_wol_interfaces : List (Option Bytes)
dxp4800s_wol_interfaces = some (codes "eth0") ∷ some (codes "eth1") ∷ []

-- network/wol_dxp480tplus.c
abbrev pub dxp480tplus_wol_interfaces : List (Option Bytes)
dxp480tplus_wol_interfaces = some (codes "eth0") ∷ some (codes "eth1") ∷ []

abbrev pub dxp480tplus_renamed_count : ℕ
dxp480tplus_renamed_count = 1

-- network/wol_dxp6800plus.c
abbrev pub dxp6800plus_wol_interfaces : List (Option Bytes)
dxp6800plus_wol_interfaces = some (codes "eth0") ∷ some (codes "eth1") ∷ []

-- network/wol_dxp6800pro.c
abbrev pub dxp6800pro_wol_interfaces : List (Option Bytes)
dxp6800pro_wol_interfaces = some (codes "eth0") ∷ some (codes "eth1") ∷ []

module _ {Net : Type 0} (get_wol : Bytes → Net → Result WolInfo × Net)
    (set_wol : Bytes → ℕ → Net → Result (Unit {0}) × Net) where
  unfoldable pub dx4600_read_wol_policy : WolCalls → WolWorld Net → Result WolPolicy × WolWorld Net
  unfolding wol_read_policy_with_renamed_count
  dx4600_read_wol_policy calls w =
      wol_read_policy_with_renamed_count get_wol set_wol calls (some dx4600_wol_interfaces)
        dx4600_renamed_count w

  unfoldable pub dx4600_set_wol_policy :
      WolCalls → WolCalls → WolPolicy → WolWorld Net → Result (Unit {0}) × WolWorld Net
  unfolding wol_set_policy_with_renamed_count
  dx4600_set_wol_policy calls later policy w =
      wol_set_policy_with_renamed_count get_wol set_wol calls later (some dx4600_wol_interfaces)
        dx4600_renamed_count policy w

  unfoldable pub dxp4800_read_wol_policy : WolCalls → WolWorld Net → Result WolPolicy × WolWorld Net
  unfolding wol_read_policy
  dxp4800_read_wol_policy calls w =
      wol_read_policy get_wol set_wol calls (some dxp4800_wol_interfaces) w

  unfoldable pub dxp4800_set_wol_policy :
      WolCalls → WolCalls → WolPolicy → WolWorld Net → Result (Unit {0}) × WolWorld Net
  unfolding wol_set_policy
  dxp4800_set_wol_policy calls later policy w =
      wol_set_policy get_wol set_wol calls later (some dxp4800_wol_interfaces) policy w

  unfoldable pub dxp4800plus_read_wol_policy :
      WolCalls → WolWorld Net → Result WolPolicy × WolWorld Net
  unfolding wol_read_policy
  dxp4800plus_read_wol_policy calls w =
      wol_read_policy get_wol set_wol calls (some dxp4800plus_wol_interfaces) w

  unfoldable pub dxp4800plus_set_wol_policy :
      WolCalls → WolCalls → WolPolicy → WolWorld Net → Result (Unit {0}) × WolWorld Net
  unfolding wol_set_policy
  dxp4800plus_set_wol_policy calls later policy w =
      wol_set_policy get_wol set_wol calls later (some dxp4800plus_wol_interfaces) policy w

  unfoldable pub dxp4800s_read_wol_policy :
      WolCalls → WolWorld Net → Result WolPolicy × WolWorld Net
  unfolding wol_read_policy
  dxp4800s_read_wol_policy calls w =
      wol_read_policy get_wol set_wol calls (some dxp4800s_wol_interfaces) w

  unfoldable pub dxp4800s_set_wol_policy :
      WolCalls → WolCalls → WolPolicy → WolWorld Net → Result (Unit {0}) × WolWorld Net
  unfolding wol_set_policy
  dxp4800s_set_wol_policy calls later policy w =
      wol_set_policy get_wol set_wol calls later (some dxp4800s_wol_interfaces) policy w

  unfoldable pub dxp480tplus_read_wol_policy :
      WolCalls → WolWorld Net → Result WolPolicy × WolWorld Net
  unfolding wol_read_policy_with_renamed_count
  dxp480tplus_read_wol_policy calls w =
      wol_read_policy_with_renamed_count get_wol set_wol calls (some dxp480tplus_wol_interfaces)
        dxp480tplus_renamed_count w

  unfoldable pub dxp480tplus_set_wol_policy :
      WolCalls → WolCalls → WolPolicy → WolWorld Net → Result (Unit {0}) × WolWorld Net
  unfolding wol_set_policy_with_renamed_count
  dxp480tplus_set_wol_policy calls later policy w =
      wol_set_policy_with_renamed_count get_wol set_wol calls later
        (some dxp480tplus_wol_interfaces) dxp480tplus_renamed_count policy w

  unfoldable pub dxp6800plus_read_wol_policy :
      WolCalls → WolWorld Net → Result WolPolicy × WolWorld Net
  unfolding wol_read_policy
  dxp6800plus_read_wol_policy calls w =
      wol_read_policy get_wol set_wol calls (some dxp6800plus_wol_interfaces) w

  unfoldable pub dxp6800plus_set_wol_policy :
      WolCalls → WolCalls → WolPolicy → WolWorld Net → Result (Unit {0}) × WolWorld Net
  unfolding wol_set_policy
  dxp6800plus_set_wol_policy calls later policy w =
      wol_set_policy get_wol set_wol calls later (some dxp6800plus_wol_interfaces) policy w

  unfoldable pub dxp6800pro_read_wol_policy :
      WolCalls → WolWorld Net → Result WolPolicy × WolWorld Net
  unfolding wol_read_policy
  dxp6800pro_read_wol_policy calls w =
      wol_read_policy get_wol set_wol calls (some dxp6800pro_wol_interfaces) w

  unfoldable pub dxp6800pro_set_wol_policy :
      WolCalls → WolCalls → WolPolicy → WolWorld Net → Result (Unit {0}) × WolWorld Net
  unfolding wol_set_policy
  dxp6800pro_set_wol_policy calls later policy w =
      wol_set_policy get_wol set_wol calls later (some dxp6800pro_wol_interfaces) policy w
