-- ===== src/Examples/Network.antt =====
-- A machine with one renamed interface.
use ugreen_nas_hardware.Prelude.{
  ℕ, ◌≡◌, refl, [], ◌∷◌, ◌++◌, some, none, Bytes, codes, bytes_eq, if◌then◌else◌, Result, ok,
}
use ugreen_nas_hardware.Prelude.Scan.{is_digit, skip_spaces, is_space, until_nul}
use ugreen_nas_hardware.Fan.Load.{lines_from}
use ugreen_nas_hardware.Network.Pci.{
  WolCalls, present_and_physical, is_physical, read_pci_ethernet_interface, read_uevent,
  read_uevent_line, is_ethernet_class, hex_signed, hex_from, after_0x, starts_hex, hex_digits,
  hex_value, until_line_end, discover_renamed_interfaces, collect, candidate_entry, sorted,
  insert_interface,
}
use ugreen_nas_hardware.Network.{
  on, WolInfo, WolWorld, options_of, open_interfaces, select_interfaces, select_valid,
  validate_interfaces, valid_names, wol_set_policy_with_renamed_count,
}
use ugreen_nas_hardware.Network.Models.{dxp480tplus_wol_interfaces}
use ugreen_nas_hardware.Network.Laws.{SetEnds, wol_set_policy-SetEnds}
use ugreen_nas_hardware.Network.Laws.Select.{IsSelection, open_interfaces-IsSelection}

abbrev calls : WolCalls
calls = record {
  present = λ name. bytes_eq name (codes "enp115s0");
  uevent = λ name.
      if bytes_eq name (codes "enp115s0")
      then some (codes "PCI_CLASS=20000" ++ 10 ∷ codes "PCI_SLOT_NAME=0000:73:00.0" ++ 10 ∷ [])
      else none;
  entries = ok (codes "." ∷ codes "lo" ∷ codes "enp115s0" ∷ []);
  socket = ok tt;
}

opened : open_interfaces calls (some dxp480tplus_wol_interfaces) 1 ≡ ok (codes "enp115s0" ∷ [])
unfolding open_interfaces select_interfaces select_valid validate_interfaces valid_names
    present_and_physical is_physical read_pci_ethernet_interface read_uevent read_uevent_line
    is_ethernet_class hex_signed hex_from after_0x starts_hex hex_digits hex_value until_line_end
    discover_renamed_interfaces collect candidate_entry sorted insert_interface is_digit skip_spaces
    is_space until_nul lines_from bytes_eq
opened = refl

open_interfaces-IsSelection_example :
    IsSelection calls (some dxp480tplus_wol_interfaces) 1 (codes "enp115s0" ∷ [])
open_interfaces-IsSelection_example =
    open_interfaces-IsSelection calls (some dxp480tplus_wol_interfaces) 1 (codes "enp115s0" ∷ [])
      opened

-- The options of the one interface.
unfoldable get_wol : Bytes → ℕ → Result WolInfo × ℕ
get_wol name options = (ok (record { supported = 32; wolopts = options }), options)

unfoldable set_wol : Bytes → ℕ → ℕ → Result (Unit {0}) × ℕ
set_wol name options net = (ok tt, options)

abbrev network : WolWorld ℕ
network = record { net = 0; writes = [] }

wol_set_policy-SetEnds_example :
    SetEnds get_wol set_wol calls
      (options_of on)
      (open_interfaces calls (some dxp480tplus_wol_interfaces) 1)
      network
      (wol_set_policy_with_renamed_count get_wol set_wol calls calls
        (some dxp480tplus_wol_interfaces)
        1
        on
        network)
wol_set_policy-SetEnds_example =
    wol_set_policy-SetEnds get_wol set_wol calls calls (some dxp480tplus_wol_interfaces) 1 on
      network
