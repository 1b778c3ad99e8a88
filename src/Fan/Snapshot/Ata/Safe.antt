-- ===== src/Fan/Snapshot/Ata/Safe.antt =====
-- What is asked of a drive, and what its answers can do.
use ugreen_nas_hardware.Prelude.{
  ℕ, zero, suc, ◌+◌, ◌-◌, ◌%◌, ◌^◌, ◌<◌, ◌≡◌, ◌≢◌, ◌⊎◌, inl, inr, refl, arith, Bool, true, false,
  not, ◌&&◌, ◌||◌, ◌==◌, ltb, leb, if◌then◌else◌, Bool-cases, List, [], ◌∷◌, Option, none, some,
  get_elem?, length, Bytes, Result, ok, err,
}
use ugreen_nas_hardware.Fan.Snapshot.Ata.{
  is_sata_rotational_block_device, Sense, fault, absent, sector_count, at_byte, descriptors,
  ata_return_sector_count, Answer, Drive, check_power_mode, read_smart_data, ata_check_power_mode,
  running_of, ask_running, ask_drive,
}

in_range : (bs : Bytes) (i : ℕ) → i < length bs → (b : ℕ) × (get_elem? bs i ≡ some b)
in_range [] i h = absurd (omega arith)
in_range (b ∷ bs) zero h = (b, refl)
in_range (b ∷ bs) (suc i) h = in_range bs i (omega arith)

at_byte-ne-fault :
    (bs : Bytes) (i : ℕ) (next : ℕ → Sense)
    → i < length bs
    → ((b : ℕ) → next b ≢ fault)
    → at_byte bs i next ≢ fault
at_byte-ne-fault bs i next h k = let (b, e) = in_range bs i h in rw (e, at_byte) (k b)

if-ne-fault :
    (test : Bool) {a b : Sense}
    → (test ≡ true → a ≢ fault)
    → (test ≡ false → b ≢ fault)
    → (if test then a else b) ≢ fault
if-ne-fault true h k = h refl
if-ne-fault false h k = k refl

absent-ne-fault : absent ≢ fault
absent-ne-fault e = cc

count-ne-fault : (n : ℕ) → sector_count n ≢ fault
count-ne-fault n e = cc

descriptors-ne-fault :
    (fuel : ℕ) (sense : Bytes) (offset : ℕ)
    → 0 < fuel
    → length sense < fuel + offset
    → descriptors fuel sense offset ≢ fault
unfolding descriptors
descriptors-ne-fault zero sense offset pos_fuel h = absurd (omega arith)
descriptors-ne-fault (suc fuel) sense offset pos_fuel h =
    if-ne-fault (not (ltb (offset + 1) (length sense))) (λ _. absent-ne-fault)
      (λ inside. at_byte-ne-fault sense (offset + 1) _ (ground arith) (λ size.
        if-ne-fault (ltb (length sense - offset) (size + 2)) (λ _. absent-ne-fault)
          (λ whole. at_byte-ne-fault sense offset _ (ground arith) (λ kind.
            if-ne-fault (kind == 9 && leb 14 (size + 2))
              (λ found. at_byte-ne-fault sense (offset + 5) _ (ground arith) count-ne-fault)
              (λ _.
                descriptors-ne-fault fuel sense (offset + (size + 2)) (ground arith)
                  (omega arith))))))

-- Whatever sense data a device gives, the search for its sector count ends, and reads no byte
-- outside of the data.
pub ata_return_sector_count-ne-fault :
    (sense : Option Bytes) → ata_return_sector_count sense ≢ fault
unfolding ata_return_sector_count
ata_return_sector_count-ne-fault none = absent-ne-fault
ata_return_sector_count-ne-fault (some sense) =
    if-ne-fault (ltb (length sense) 8) (λ _. absent-ne-fault)
      (λ whole. at_byte-ne-fault sense 0 _ (ground arith) (λ first.
        if-ne-fault (not (first % 2 ^ 7 == 0x72)) (λ _. absent-ne-fault)
          (λ _. descriptors-ne-fault (length sense) sense 8 (ground arith) (ground arith))))

-- The answer says that the drive runs.
abbrev pub SaysRunning : Answer → Type 0
SaysRunning a =
    (a.ioctl ≡ ok tt)
    × (n : ℕ) × (ata_return_sector_count (some a.sense) ≡ sector_count n)
    × (n ≢ 0)

running_of-true : (s : Sense) → running_of s ≡ ok true → (n : ℕ) × (s ≡ sector_count n) × (n ≢ 0)
running_of-true (sector_count n) e = (n, refl, λ z. ground arith)
running_of-true absent e = cc
running_of-true fault e = cc

ata_check_power_mode-true : (a : Answer) → ata_check_power_mode a ≡ ok true → SaysRunning a
unfolding ata_check_power_mode
ata_check_power_mode-true a e =
    let parts : (a.ioctl ≡ ok tt)
        × (running_of (ata_return_sector_count (some a.sense)) ≡ ok true) =
      (ground arith, ground arith) in
    let (n, counted, positive) = running_of-true _ parts.1 in (parts.0, n, counted, positive)

-- What may be sent to a drive.
abbrev pub MaySend : Drive → List Bytes → Type 0
MaySend d commands =
    (commands ≡ [])
    ⊎ (commands ≡ check_power_mode ∷ [])
    ⊎ ((commands ≡ check_power_mode ∷ read_smart_data ∷ [])
        × SaysRunning (d.answers check_power_mode))

ask_running-MaySend :
    (d : Drive) (r : Result Bool)
    → (r ≡ ok true → SaysRunning (d.answers check_power_mode))
    → MaySend d (ask_running d r).commands
unfolding ask_running
ask_running-MaySend d (ok true) h = inr (inr (refl, h refl))
ask_running-MaySend d (ok false) h = inr (inl refl)
ask_running-MaySend d (err e) h = inr (inl refl)

-- A drive is sent nothing, or asked for its power mode, and its SMART data are read after that and
-- only if the answer has a sector count that is not 0, the sign of a running drive: one in standby is
-- not woken.
pub ask_drive-MaySend : (d : Drive) → MaySend d (ask_drive d).commands
unfolding ask_drive
ask_drive-MaySend d = elim (Bool-cases (not (is_sata_rotational_block_device d) || not d.opens)) [
  | inl no_drive ↦ rw no_drive (inl refl)
  | inr drive ↦ rw drive (
      ask_running-MaySend d (ata_check_power_mode (d.answers check_power_mode))
        (ata_check_power_mode-true (d.answers check_power_mode)))
]
