-- ===== src/Disk/Calibration/Laws.antt =====
-- On the bays of a calibration that was read.
use ugreen_nas_hardware.Prelude.{
  ℕ, ◌-◌, ◌≡◌, ◌≢◌, ◌≤◌, ◌<◌, refl, sym, ap, ◌∙◌, subst, arith, Bool, true, false, not, ◌&&◌, ◌||◌,
  List, [], ◌∷◌, ◌++◌, All, length-append, Option, none, some, ltb, leb, ◌==◌, ==_iff,
  if◌then◌else◌, length, Bytes, codes, bytes_eq, Result, ok, err, ◌>>=◌,
}
use ugreen_nas_hardware.Prelude.Text.{bytes_eq_iff}
use ugreen_nas_hardware.Prelude.Scan.{until_nul}
use ugreen_nas_hardware.Fan.Snapshot.{after_prefix}
use ugreen_nas_hardware.Disk.Resolve.{selector_slot}
use ugreen_nas_hardware.Prelude.Written.{if-ok, bind-ok}
use ugreen_nas_hardware.Prelude.Every.{All-snoc}
use ugreen_nas_hardware.Disk.Types.{failed}
use ugreen_nas_hardware.Disk.Calibration.{
  CalibrationBay, Calibration, CalibrationState, CalibrationFile, known_bay_limit, valid_topology,
  is_taken, place_bay, place_topology, read_bay, split_space, read_setting, read_piece, read_pieces,
  read_stream, read_calibration, pieces_from, line_size, trim_text, has_newline, is_blank, is_nil,
  finish_calibration, is_enoent, no_calibration,
}

-- A bay that the model has, on a valid topology that its buffer holds.
unfoldable pub IsBay : Bytes → CalibrationBay → Type 0
IsBay model bay =
    (0 < bay.slot)
    × (bay.slot ≤ known_bay_limit model)
    × (valid_topology bay.topology ≡ true)
    × (length bay.topology < 128)

unfoldable pub IsOther : CalibrationBay → CalibrationBay → Type 0
IsOther bay other = (other.slot ≢ bay.slot) × (other.topology ≢ bay.topology)

-- No two bays share their slot or their topology.
unfoldable pub AreApart : List CalibrationBay → Type 0
unfolding IsOther
AreApart [] = Unit
AreApart (bay ∷ bays) = All (IsOther bay) bays × AreApart bays

unfoldable pub AreBays : Bytes → List CalibrationBay → Type 0
unfolding IsBay AreApart
AreBays model bays = All (IsBay model) bays × AreApart bays × (length bays ≤ 8)

AreApart-snoc :
    (bays : List CalibrationBay) (bay : CalibrationBay)
    → AreApart bays
    → All (λ other. IsOther other bay) bays
    → AreApart (bays ++ bay ∷ [])
unfolding AreApart
AreApart-snoc [] bay h k = (tt, tt)
AreApart-snoc (first ∷ bays) bay (others, h) (here, k) =
    (All-snoc (IsOther first) bays bay others here, AreApart-snoc bays bay h k)

untrue : (b : Bool) → b ≡ true → b ≡ false → ⊥
untrue true h k = cc
untrue false h k = cc

not-or : (a b : Bool) → (a || b) ≡ false → (a ≡ false) × (b ≡ false)
not-or true b h = cc
not-or false b h = (refl, h)

is_taken-IsOther :
    (slot : ℕ) (topology : Bytes) (bays : List CalibrationBay)
    → is_taken slot topology bays ≡ false
    → All (λ other. IsOther other (record { slot = slot; topology = topology })) bays
unfolding is_taken IsOther
is_taken-IsOther slot topology [] h = tt
is_taken-IsOther slot topology (bay ∷ bays) h =
    let (here, later) =
      not-or ((bay.slot == slot) || bytes_eq bay.topology topology) (is_taken slot topology bays)
        h in
    let (s, t) = not-or (bay.slot == slot) (bytes_eq bay.topology topology) here in
    (
      (
        λ e. untrue _ ((==_iff bay.slot slot).1 (sym e)) s,
        λ e. untrue _ ((bytes_eq_iff bay.topology topology).1 (sym e)) t,
      ),
      is_taken-IsOther slot topology bays later,
    )

bay-tests :
    (slot limit size : ℕ) (valid taken : Bool)
    → ((slot == 0) || ltb limit slot || not valid || leb 128 size || taken) ≡ false
    → (0 < slot) × (slot ≤ limit) × (valid ≡ true) × (size < 128) × (taken ≡ false)
bay-tests slot limit size valid taken h = ground arith

place_bay-AreBays :
    (model : Bytes) (bays bays' : List CalibrationBay) (slot : ℕ) (topology : Bytes)
    → AreBays model bays
    → length bays < 8
    → place_bay model bays slot topology ≡ ok bays'
    → AreBays model bays'
unfolding place_bay AreBays IsBay
place_bay-AreBays model bays bays' slot topology (all, apart, _) few h =
    let bay : CalibrationBay = record { slot = slot; topology = topology } in
    let (tests, same) =
      if-ok
        ((slot == 0)
          || ltb (known_bay_limit model) slot
          || not (valid_topology topology)
          || leb 128 (length topology)
          || is_taken slot topology bays)
        failed (ok (bays ++ bay ∷ [])) bays' h in
    let (p, q, v, r, free) =
      bay-tests slot (known_bay_limit model) (length topology) (valid_topology topology)
        (is_taken slot topology bays) tests in
    let more : bays ++ bay ∷ [] ≡ bays' = cc in
    let count : length (bays ++ bay ∷ []) ≤ 8 = omega (arith, length-append bays (bay ∷ [])) in
    subst (AreBays model) more (
      All-snoc (IsBay model) bays bay all (p, q, v, r),
      AreApart-snoc bays bay apart (is_taken-IsOther slot topology bays free),
      count,
    )

place_topology-AreBays :
    (model : Bytes) (bays bays' : List CalibrationBay) (slot : ℕ) (topology : Option Bytes)
    → AreBays model bays
    → length bays < 8
    → place_topology model bays slot topology ≡ ok bays'
    → AreBays model bays'
unfolding place_topology
place_topology-AreBays model bays bays' slot none all few h = cc
place_topology-AreBays model bays bays' slot (some topology) all few h =
    place_bay-AreBays model bays bays' slot topology all few h

read_bay-AreBays :
    (model : Bytes) (bays bays' : List CalibrationBay) (cut : Option (Bytes × Bytes))
    → AreBays model bays
    → length bays < 8
    → read_bay model bays cut ≡ ok bays'
    → AreBays model bays'
unfolding read_bay
read_bay-AreBays model bays bays' none all few h = cc
read_bay-AreBays model bays bays' (some (name, rest)) all few h =
    place_topology-AreBays model bays bays' (selector_slot name)
      (after_prefix (codes "topology=") (trim_text rest)) all few h

room-few : (seen : Bool) (n : ℕ) → (not seen || leb 8 n) ≡ false → n < 8
room-few seen n h = ground arith

read_setting-AreBays :
    (model : Bytes) (state state' : CalibrationState) (text : Bytes) (value : Option Bytes)
    → AreBays model state.bays_seen
    → read_setting model state text value ≡ ok state'
    → AreBays model state'.bays_seen
unfolding read_setting
read_setting-AreBays model state state' text (some value) all h =
    let (_, same) =
      if-ok (state.model_seen || not (bytes_eq value model)) failed
        (ok (record state { model_seen = true })) state' h in
    let here : record state { model_seen = true } ≡ state' = cc in
    subst (λ s. AreBays model s.bays_seen) here all
read_setting-AreBays model state state' text none all h =
    let (room, read) =
      if-ok (not state.model_seen || leb 8 (length state.bays_seen)) failed
        (read_bay model state.bays_seen (split_space text) >>= λ bays.
          ok (record state { bays_seen = bays }))
        state' h in
    let few = room-few state.model_seen (length state.bays_seen) room in
    let (bays, done, stored) =
      bind-ok (read_bay model state.bays_seen (split_space text)) _ state' read in
    let here : record state { bays_seen = bays } ≡ state' = cc in
    subst (λ s. AreBays model s.bays_seen) here
      (read_bay-AreBays model state.bays_seen bays (split_space text) all few done)

skipped-AreBays :
    (model : Bytes) (blank : Bool) (state state' : CalibrationState)
    (entry : Result CalibrationState)
    → AreBays model state.bays_seen
    → (if blank then ok state else entry) ≡ ok state'
    → (entry ≡ ok state' → AreBays model state'.bays_seen)
    → AreBays model state'.bays_seen
skipped-AreBays model true state state' entry all h k =
    let same : state ≡ state' = cc in subst (λ s. AreBays model s.bays_seen) same all
skipped-AreBays model false state state' entry all h k = k h

read_piece-AreBays :
    (model : Bytes) (state state' : CalibrationState) (piece : Bytes × Bool)
    → AreBays model state.bays_seen
    → read_piece model state piece ≡ ok state'
    → AreBays model state'.bays_seen
unfolding read_piece
read_piece-AreBays model state state' (piece, at_end) all h =
    let (_, read) =
      if-ok (not (has_newline (until_nul piece)) && not at_end) failed
        (if is_blank (trim_text (until_nul piece))
          then ok state
          else read_setting model state (trim_text (until_nul piece))
              (after_prefix (codes "model=") (trim_text (until_nul piece))))
        state' h in
    skipped-AreBays model (is_blank (trim_text (until_nul piece))) state state' _ all read (λ k.
      read_setting-AreBays model state state' (trim_text (until_nul piece))
        (after_prefix (codes "model=") (trim_text (until_nul piece))) all k)

read_pieces-AreBays :
    (model : Bytes) (state state' : CalibrationState) (pieces : List (Bytes × Bool))
    → AreBays model state.bays_seen
    → read_pieces model state pieces ≡ ok state'
    → AreBays model state'.bays_seen
unfolding read_pieces
read_pieces-AreBays model state state' [] all h =
    let same : state ≡ state' = cc in subst (λ s. AreBays model s.bays_seen) same all
read_pieces-AreBays model state state' (piece ∷ pieces) all h =
    let (next, first, rest) = bind-ok (read_piece model state piece) _ state' h in
    read_pieces-AreBays model next state' pieces
      (read_piece-AreBays model state next piece all first) rest

finish-calibration :
    (model : Bytes) (failed_reading : Bool) (state : CalibrationState) (cal : Calibration)
    → AreBays model state.bays_seen
    → finish_calibration failed_reading state ≡ ok cal
    → AreBays model cal.bays × (0 < length cal.bays)
finish-calibration model failed_reading state cal all h =
    let (tests, done) =
      if-ok (failed_reading || not state.model_seen || is_nil state.bays_seen) failed
        (ok (record { bays = state.bays_seen; present = true })) cal h in
    let (_, some_bay) =
      not-or (failed_reading || not state.model_seen) (is_nil state.bays_seen) tests in
    let here : state.bays_seen ≡ cal.bays = cc in
    subst (λ b. AreBays model b × (0 < length b)) here (all, not_nil state.bays_seen some_bay)
  where
    not_nil : (bays : List CalibrationBay) → is_nil bays ≡ false → 0 < length bays
    not_nil [] e = cc
    not_nil (bay ∷ bays) e = omega arith

read_stream-AreBays :
    (model : Bytes) (stream : Option (Bytes × Bool)) (cal : Calibration)
    → read_stream model stream ≡ ok cal
    → AreBays model cal.bays × (0 < length cal.bays)
unfolding read_stream AreBays AreApart
read_stream-AreBays model none cal h = cc
read_stream-AreBays model (some (text, failed_reading)) cal h =
    let start : CalibrationState = record { model_seen = false; bays_seen = [] } in
    let (state, read, done) =
      bind-ok (read_pieces model start (pieces_from (line_size - 1) [] text)) _ cal h in
    finish-calibration model failed_reading state cal
      (read_pieces-AreBays model start state (pieces_from (line_size - 1) [] text)
        (tt, tt, omega arith) read)
      done

-- A calibration that is read from a file has one to eight bays, each one a bay of the model on a valid
-- topology, and no two of them have the same slot or the same topology.
pub read_calibration-AreBays :
    (optional : Bool) (model : Bytes) (opened : Result CalibrationFile) (cal : Calibration)
    → read_calibration optional model opened ≡ ok cal
    → cal.present ≡ true
    → AreBays model cal.bays × (0 < length cal.bays)
unfolding read_calibration
read_calibration-AreBays optional model (err e) cal h p =
    absurd (not_present (optional && is_enoent e) cal h p)
  where
    not_present :
        (test : Bool) (cal : Calibration)
        → (if test then ok no_calibration else err failed) ≡ ok cal
        → cal.present ≡ true
        → ⊥
    not_present true cal h p =
        let none_read : no_calibration ≡ cal = cc in
        let flag : false ≡ true = ap (λ c. c.present) none_read ∙ p in cc
    not_present false cal h p = cc
read_calibration-AreBays optional model (ok file) cal h p =
    let (_, read) = if-ok (not file.is_protected) failed (read_stream model file.stream) cal h in
    read_stream-AreBays model file.stream cal read
