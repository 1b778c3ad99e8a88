-- ===== src/Fan/Load/Laws/Lines.antt =====
-- Lines of the form `key=value` that were written are read as such.
use mathlib.Core.List.{append-nil, append_assoc}
use ugreen_nas_hardware.Prelude.{
  ℕ, ◌-◌, ◌<◌, ◌≡◌, ◌≢◌, ◌∙◌, refl, sym, ap, arith, false, [], ◌∷◌, ◌++◌, length, leb, ◌==◌, Bytes,
  All, some,
}
use ugreen_nas_hardware.Prelude.Scan.{is_space, until_nul, skip_spaces, trim_end}
use ugreen_nas_hardware.Prelude.Scan.Words.{
  IsWord, IsWord-append, until_nul-append, skip_spaces-word, trim_end-append,
}
use ugreen_nas_hardware.Fan.Curve.{FanCurveConfig}
use ugreen_nas_hardware.Fan.Load.{
  trim, lines_from, line_room, split_equals, is_skipped, set_split, set_value, read_line,
}

-- A word with a newline behind it is one line, if there is room.
pub lines_from-word :
    (room : ℕ) (current s rest : Bytes)
    → IsWord s
    → length s < room
    → lines_from room current (s ++ b'\n' ∷ rest)
      ≡ (current ++ (s ++ b'\n' ∷ [])) ∷ lines_from line_room [] rest
unfolding lines_from is_space
lines_from-word room current [] rest h few = refl
lines_from-word room current (c ∷ cs) rest h few =
    let (other, more) = steps c h.0.0 few in
    rw (other, more)
      (lines_from-word (room - 1) (current ++ c ∷ []) cs rest h.1 (omega arith)
        ∙ ap (λ line. line ∷ lines_from line_room [] rest)
            (append_assoc current (c ∷ []) (cs ++ b'\n' ∷ [])))
  where
    steps :
        (c : ℕ)
        → is_space c ≡ false
        → length (c ∷ cs) < room
        → ((c == b'\n') ≡ false) × (leb room 1 ≡ false)
    steps c h few = (ground arith, ground arith)

-- A key without `=`, not a comment.
pub record IsKey (key : Bytes) : Type 0 where
  pub word : IsWord key
  pub no_equals : All (λ c. (c == b'=') ≡ false) key
  pub starts : is_skipped key ≡ false

-- White space behind a word goes.
trimmed : (s t : Bytes) → IsWord s → s ≢ [] → trim_end t ≡ [] → trim (s ++ t) ≡ s
unfolding trim
trimmed s t h ne e = rw (skip_spaces-word s t h ne) (trim_end-append s t h e)

trim-word : (s : Bytes) → IsWord s → trim s ≡ s
unfolding trim skip_spaces trim_end
trim-word [] h = refl
trim-word (c ∷ cs) h = ap trim (sym (append-nil (c ∷ cs))) ∙ trimmed (c ∷ cs) [] h (λ e. cc) refl

split_equals-key :
    (key value : Bytes)
    → All (λ c. (c == b'=') ≡ false) key
    → split_equals (key ++ b'=' ∷ value) ≡ some (key, value)
unfolding split_equals
split_equals-key [] value h = refl
split_equals-key (c ∷ cs) value h = rw (h.0, split_equals-key cs value h.1) refl

line-ne-nil : (key value : Bytes) → key ++ b'=' ∷ value ≢ []
line-ne-nil [] value e = cc
line-ne-nil (c ∷ cs) value e = cc

not_skipped :
    (key value : Bytes) → is_skipped key ≡ false → is_skipped (key ++ b'=' ∷ value) ≡ false
unfolding is_skipped
not_skipped [] value h = cc
not_skipped (c ∷ cs) value h = h

pub read_line-word :
    (config : FanCurveConfig) (key value : Bytes)
    → IsKey key
    → IsWord value
    → read_line config ((key ++ b'=' ∷ value) ++ b'\n' ∷ []) ≡ set_value config key value
unfolding read_line set_split until_nul is_space trim_end
read_line-word config key value h k =
    let line = key ++ b'=' ∷ value in
    let word : IsWord line =
      IsWord-append key (b'=' ∷ value) h.word ((refl, λ e. ground arith), k) in
    let text : until_nul (line ++ b'\n' ∷ []) ≡ line ++ b'\n' ∷ [] =
      until_nul-append line (b'\n' ∷ []) word in
    rw
      (
        text,
        trimmed line (b'\n' ∷ []) word (line-ne-nil key value) refl,
        not_skipped key value h.starts,
        split_equals-key key value h.no_equals,
        trim-word key h.word,
        trim-word value k,
      )
      refl
