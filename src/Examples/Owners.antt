-- ===== src/Examples/Owners.antt =====
-- Commands that drive the LED controller, and one that only starts such a command.
use ugreen_nas_hardware.Prelude.{◌≡◌, refl, true, false, [], ◌∷◌, ◌++◌, some, none, codes, str_is}
use ugreen_nas_hardware.Led.Owners.{command_is_owner}
use ugreen_nas_hardware.Led.Owners.Laws.{command_is_owner-path}

script_of_a_shell :
    command_is_owner (some (codes "bash")) none (
      some (codes "/bin/bash")
      ∷ some (codes "-o")
      ∷ some (codes "pipefail")
      ∷ some (codes "/usr/bin/ugreen-diskiomon")
      ∷ [])
    ≡ true
unfolding command_is_owner str_is
script_of_a_shell = refl

wrapper :
    command_is_owner
      (some (codes "sudo"))
      none
      (some (codes "sudo") ∷ some (codes "ugreen_leds_cli") ∷ [])
    ≡ false
unfolding command_is_owner str_is
wrapper = refl

command_is_owner-path_example :
    command_is_owner none none (some (codes "/usr/bin" ++ b'/' ∷ codes "ledmon") ∷ [])
    ≡ command_is_owner none none (some (codes "ledmon") ∷ [])
command_is_owner-path_example =
    command_is_owner-path (codes "/usr/bin") (codes "ledmon") none none []
