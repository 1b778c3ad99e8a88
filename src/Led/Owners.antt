-- ===== src/Led/Owners.antt =====
-- Which processes drive the LED controller themselves, led/led.c: `process_name_is_owner` and
-- `command_is_owner`.
pub mod Laws
use ugreen_nas_hardware.Prelude.{
  ℕ, ◌+◌, Bool, true, false, not, ◌&&◌, ◌||◌, List, [], ◌∷◌, ◌++◌, Option, none, some, ◌==◌,
  if◌then◌else◌, length, get_or, take, drop, Bytes, bytes_eq, str_is, codes,
}
use ugreen_nas_hardware.Prelude.Every.{any}
use ugreen_nas_hardware.Prelude.Scan.{is_digit, starts_digit}
use ugreen_nas_hardware.Fan.Snapshot.{after_prefix}

abbrev pub owner_names : List Bytes
owner_names =
    codes "ugreen_leds_cli"
    ∷ codes "ugreen-diskiomon"
    ∷ codes "ugreen-netdevmon"
    ∷ codes "ugreen-netdevmon-multi"
    ∷ codes "ugreen-power-led"
    ∷ codes "ugreen-blink-disk"
    ∷ codes "ugreen_led"
    ∷ codes "ugreen-led"
    ∷ codes "ledmon"
    ∷ codes "ledctl"
    ∷ codes "nas_led"
    ∷ codes "led_ctrl"
    ∷ codes "hwmonitor"
    ∷ codes "hwmonitor-amd"
    ∷ codes "hwmonitor-480t"
    ∷ []

-- `found` is what follows a later slash.
abbrev pub or_here : ℕ → Bytes → Option Bytes → Option Bytes
or_here c cs (some found) = some found
or_here c cs none = if c == b'/' then some cs else none

-- What follows the last slash, where there is one.
unfoldable pub after_slash : Bytes → Option Bytes
after_slash [] = none
after_slash (c ∷ cs) = or_here c cs (after_slash cs)

abbrev pub or_all : Bytes → Option Bytes → Bytes
or_all name none = name
or_all name (some base) = base

unfoldable pub process_basename : Bytes → Bytes
unfolding after_slash
process_basename name = or_all name (after_slash name)

-- Linux cuts the `comm` of a process after 15 bytes.
unfoldable pub is_owner_name : Bool → Bytes → Bytes → Bool
unfolding bytes_eq
is_owner_name truncated_comm base name =
    bytes_eq base name || (truncated_comm && (length base == 15) && bytes_eq base (take 15 name))

-- `none` for NULL.
unfoldable pub process_name_is_owner : Option Bytes → Bool → Bool
unfolding process_basename is_owner_name any
process_name_is_owner none truncated_comm = false
process_name_is_owner (some name) truncated_comm =
    any (is_owner_name truncated_comm (process_basename name)) owner_names

unfoldable pub is_shell : Bytes → Bool
unfolding str_is
is_shell program =
    str_is program "sh"
    || str_is program "bash"
    || str_is program "dash"
    || str_is program "ash"
    || str_is program "ksh"
    || str_is program "zsh"

abbrev digit_after : Option Bytes → Bool
unfolding is_digit
digit_after none = false
digit_after (some rest) = starts_digit rest

unfoldable pub is_python : Bytes → Bool
unfolding str_is is_digit
is_python program =
    str_is program "python"
    || str_is program "python3"
    || digit_after (after_prefix (codes "python3.") program)

unfoldable pub has_char : ℕ → Bytes → Bool
has_char wanted [] = false
has_char wanted (c ∷ cs) = let later = has_char wanted cs in if c == wanted then true else later

abbrev starts_with : ℕ → Bytes → Bool
starts_with wanted [] = false
starts_with wanted (c ∷ cs) = c == wanted

-- Options after which no script follows.
unfoldable pub ends_options : Bool → Bytes → Bool
unfolding str_is has_char
ends_options shell argument =
    if shell
    then str_is argument "--command"
      || (starts_with b'-' argument
          && not (starts_with b'-' (drop 1 argument))
          && (has_char b'c' (drop 1 argument) || has_char b's' (drop 1 argument)))
    else starts_with b'-' argument
      && (starts_with b'c' (drop 1 argument) || starts_with b'm' (drop 1 argument))

-- Options that take the next argument.
unfoldable pub takes_value : Bool → Bytes → Bool
unfolding str_is
takes_value shell argument =
    if shell
    then str_is argument "-o"
      || str_is argument "+o"
      || str_is argument "--rcfile"
      || str_is argument "--init-file"
    else str_is argument "-W" || str_is argument "-X" || str_is argument "--check-hash-based-pycs"

-- One argument: `next` is the answer for the one after it as a script, `following` the answer of the
-- loop from there on, `skipped` that after one more argument.
abbrev argument_is_owner : Bool → Bytes → Bool → Bool → Bool → Bool
unfolding process_name_is_owner str_is ends_options takes_value
argument_is_owner shell argument next following skipped =
    if str_is argument "--"
    then next
    else if not (starts_with b'-' argument) && not (shell && starts_with b'+' argument)
    then process_name_is_owner (some argument) false
    else if ends_options shell argument
    then false
    else if takes_value shell argument
    then skipped
    else following

-- The arguments from the second one on; one of them may be NULL.
unfoldable pub arguments_are_owner : Bool → List (Option Bytes) → Bool
unfolding process_name_is_owner str_is ends_options takes_value
arguments_are_owner shell [] = false
arguments_are_owner shell (none ∷ arguments) = false
arguments_are_owner shell (some argument ∷ []) = argument_is_owner shell argument false false false
arguments_are_owner shell (some argument ∷ next ∷ arguments) =
    argument_is_owner shell argument (process_name_is_owner next false)
      (arguments_are_owner shell (next ∷ arguments)) (arguments_are_owner shell arguments)

-- After the tests of the names; `named` says whether one of them is an owner's.
unfoldable pub program_is_owner : Bool → Bytes → List (Option Bytes) → Bool
unfolding arguments_are_owner is_shell is_python
program_is_owner named program arguments =
    let scripts = arguments_are_owner (is_shell program) arguments in
    if named
    then true
    else if not (is_shell program) && not (is_python program)
    then false
    else scripts

-- `arguments` is empty for NULL.
unfoldable pub command_is_owner : Option Bytes → Option Bytes → List (Option Bytes) → Bool
unfolding process_name_is_owner process_basename program_is_owner
command_is_owner comm executable (some first ∷ arguments) =
    program_is_owner
      (process_name_is_owner comm true
        || process_name_is_owner executable false
        || process_name_is_owner (some first) false)
      (process_basename first) arguments
command_is_owner comm executable _ =
    process_name_is_owner comm true || process_name_is_owner executable false
