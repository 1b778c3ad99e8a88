-- ===== src/Led/Owners/Laws.antt =====
-- On the directory of a program that is judged.
use ugreen_nas_hardware.Prelude.{
  ◌≡◌, refl, ap, Bool, false, List, [], ◌∷◌, ◌++◌, Option, none, some, Bytes,
}
use ugreen_nas_hardware.Prelude.Every.{any}
use ugreen_nas_hardware.Led.Owners.{
  or_here, or_all, after_slash, process_basename, is_owner_name, owner_names, process_name_is_owner,
  command_is_owner,
}

after_slash-here :
    (name : Bytes) (found : Option Bytes) → or_here b'/' name found ≡ some (or_all name found)
after_slash-here name none = refl
after_slash-here name (some base) = refl

after_slash-path :
    (directory name : Bytes) → after_slash (directory ++ b'/' ∷ name) ≡ some (process_basename name)
unfolding after_slash process_basename
after_slash-path [] name = after_slash-here name (after_slash name)
after_slash-path (c ∷ directory) name =
    ap (or_here c (directory ++ b'/' ∷ name)) (after_slash-path directory name)

process_basename-path :
    (directory name : Bytes) → process_basename (directory ++ b'/' ∷ name) ≡ process_basename name
unfolding process_basename
process_basename-path directory name =
    ap (or_all (directory ++ b'/' ∷ name)) (after_slash-path directory name)

-- The name of a program is judged by what stands after its last slash, in whichever directory it is.
pub process_name_is_owner-path :
    (directory name : Bytes) (truncated_comm : Bool)
    → process_name_is_owner (some (directory ++ b'/' ∷ name)) truncated_comm
      ≡ process_name_is_owner (some name) truncated_comm
unfolding process_name_is_owner
process_name_is_owner-path directory name truncated_comm =
    ap (λ base. any (is_owner_name truncated_comm base) owner_names)
      (process_basename-path directory name)

-- The same for a whole command: the directory of the program that is run changes no answer.
pub command_is_owner-path :
    (directory name : Bytes) (comm executable : Option Bytes) (arguments : List (Option Bytes))
    → command_is_owner comm executable (some (directory ++ b'/' ∷ name) ∷ arguments)
      ≡ command_is_owner comm executable (some name ∷ arguments)
unfolding command_is_owner
command_is_owner-path directory name comm executable arguments =
    rw (process_name_is_owner-path directory name false, process_basename-path directory name) refl
