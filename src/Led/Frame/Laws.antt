-- ===== src/Led/Frame/Laws.antt =====
-- What frames carry and what their check bytes protect.
use ugreen_nas_hardware.Prelude.{
  ℕ, zero, suc, ◌+◌, ◌*◌, ◌/◌, ◌^◌, ◌≤◌, ◌<◌, ◌≡◌, ◌≢◌, ◌∙◌, sym, subst, refl, ap, arith, [], ◌∷◌,
  ◌++◌, some, get_or, drop, u8, length, length-append, All, Bytes, ok, err, ebadmsg,
}
use ugreen_nas_hardware.Led.Types.{LedValue}
use ugreen_nas_hardware.Led.Frame.{checksum, decode, encode, word_at, Parameters}

abbrev pub AreBytes : Bytes → Type 0
AreBytes = All (λ b. b < 256)

get_or-byte : (frame : Bytes) (i : ℕ) → AreBytes frame → get_or frame i 0 < 256
get_or-byte [] i h = omega arith
get_or-byte (b ∷ bs) zero h = h.0
get_or-byte (b ∷ bs) (suc i) h = get_or-byte bs i h.1

-- A frame that is accepted has 11 bytes and the sum of its first 9 in its last two; the value's
-- mode is one of the four, its color components and brightness are bytes, and its two durations
-- add up to the cycle of the frame, which has 16 bits.
pub decode_sound :
    (frame : Bytes) (v : LedValue)
    → AreBytes frame
    → decode (some frame) ≡ ok v
    → (length frame ≡ 11)
      × (checksum frame 9 ≡ word_at frame 9)
      × (v.mode ≤ 3)
      × (v.brightness < 256)
      × (v.red < 256)
      × (v.green < 256)
      × (v.blue < 256)
      × (v.on_ms + v.off_ms ≡ word_at frame 5)
      × (v.on_ms + v.off_ms < 65536)
unfolding decode
decode_sound frame v h e = ground (
  arith,
  get_or-byte frame 1 h,
  get_or-byte frame 2 h,
  get_or-byte frame 3 h,
  get_or-byte frame 4 h,
  get_or-byte frame 5 h,
  get_or-byte frame 6 h,
)

checksum_replaced :
    (xs ys : Bytes) (x x' n : ℕ)
    → length xs < n
    → checksum (xs ++ x ∷ ys) n + x' ≡ checksum (xs ++ x' ∷ ys) n + x
unfolding checksum
checksum_replaced [] ys x x' (suc n) h = omega arith
checksum_replaced (b ∷ bs) ys x x' (suc n) h =
    omega (arith, checksum_replaced bs ys x x' n (omega arith))
checksum_replaced xs ys x x' zero h = absurd (omega arith)

get_or-replaced :
    (xs ys : Bytes) (x x' i : ℕ)
    → length xs < i
    → get_or (xs ++ x ∷ ys) i 0 ≡ get_or (xs ++ x' ∷ ys) i 0
get_or-replaced [] ys x x' zero h = absurd (omega arith)
get_or-replaced [] ys x x' (suc i) h = refl
get_or-replaced (b ∷ bs) ys x x' zero h = absurd (omega arith)
get_or-replaced (b ∷ bs) ys x x' (suc i) h = get_or-replaced bs ys x x' i (omega arith)

-- Of an accepted frame no single changed byte among the first nine goes unnoticed: the changed
-- frame is refused.
pub decode_detects :
    (xs ys : Bytes) (x x' : ℕ) (v : LedValue)
    → decode (some (xs ++ x ∷ ys)) ≡ ok v
    → length xs < 9
    → x ≢ x'
    → decode (some (xs ++ x' ∷ ys)) ≡ err ebadmsg
unfolding decode
decode_detects xs ys x x' v e h ne = ground (
  arith,
  checksum_replaced xs ys x x' 9 h,
  get_or-replaced xs ys x x' 9,
  get_or-replaced xs ys x x' 10,
  length-append xs (x ∷ ys),
  length-append xs (x' ∷ ys),
)

abbrev body_of : ℕ → Parameters → Bytes
body_of command p = 0xa0 ∷ 1 ∷ 0 ∷ 0 ∷ command ∷ p.p0 ∷ p.p1 ∷ p.p2 ∷ p.p3 ∷ []

abbrev sum_of : ℕ → Parameters → ℕ
sum_of command p = 0xa1 + command + p.p0 + p.p1 + p.p2 + p.p3

encode-parts :
    (id command : ℕ) (p : Parameters) (frame : Bytes)
    → encode id command (some p) ≡ ok frame
    → (id ≤ 9)
      × (1 ≤ command)
      × (command ≤ 5)
      × (frame
          ≡ id ∷ body_of command p
            ++ u8 (checksum (body_of command p) 9 / 2 ^ 8)
              ∷ u8 (checksum (body_of command p) 9)
              ∷ [])
unfolding encode
encode-parts id command p frame e = ground arith

checksum-body :
    (command : ℕ) (p : Parameters) (r : Bytes)
    → checksum (body_of command p ++ r) 9 ≡ sum_of command p
unfolding checksum
checksum-body command p r = omega arith

checksum-sum :
    (command : ℕ) (p : Parameters)
    → command ≤ 5
    → (p.p0 < 256) × (p.p1 < 256) × (p.p2 < 256) × (p.p3 < 256)
    → (checksum (body_of command p) 9 ≡ sum_of command p) × (sum_of command p < 65536)
unfolding checksum
checksum-sum command p c b = (omega arith, omega arith)

word_bytes : (s : ℕ) → s < 65536 → u8 (s / 2 ^ 8) * 256 + u8 s ≡ s
word_bytes s h = omega arith

bytes-frame :
    (id command : ℕ) (p : Parameters)
    → id < 256
    → command < 256
    → (p.p0 < 256) × (p.p1 < 256) × (p.p2 < 256) × (p.p3 < 256)
    → AreBytes (
        id ∷ body_of command p
        ++ u8 (checksum (body_of command p) 9 / 2 ^ 8) ∷ u8 (checksum (body_of command p) 9) ∷ [])
bytes-frame id command p i c b = ground arith

-- A frame is made only for the targets 0 to 9 and the commands 1 to 5. From four parameter bytes it
-- is made of 12 bytes, starts with the target, has the command at 5, and its last two bytes are the
-- sum of the nine bytes after the target, the high byte first.
pub encode_sound :
    (id command : ℕ) (p : Parameters) (frame : Bytes)
    → (p.p0 < 256) × (p.p1 < 256) × (p.p2 < 256) × (p.p3 < 256)
    → encode id command (some p) ≡ ok frame
    → (id ≤ 9)
      × (1 ≤ command)
      × (command ≤ 5)
      × (length frame ≡ 12)
      × (get_or frame 0 0 ≡ id)
      × (get_or frame 5 0 ≡ command)
      × AreBytes frame
      × (checksum (drop 1 frame) 9 ≡ word_at frame 10)
encode_sound id command p frame b e =
    let q = encode-parts id command p frame e in
    let c = checksum-sum command p q.2 b in
    let s = checksum (body_of command p) 9 in
    (
      q.0,
      q.1,
      q.2,
      ap length q.3,
      ap (λ f. get_or f 0 0) q.3,
      ap (λ f. get_or f 5 0) q.3,
      (subst AreBytes (sym q.3) (bytes-frame id command p (omega arith) (omega arith) b)),
      (ap (λ f. checksum (drop 1 f) 9) q.3
          ∙ checksum-body command p (u8 (s / 2 ^ 8) ∷ u8 s ∷ [])
          ∙ sym c.0
          ∙ sym (word_bytes s (omega arith))
          ∙ sym (ap (λ f. word_at f 10) q.3)),
    )
