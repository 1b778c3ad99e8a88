-- ===== src/Led/Session.antt =====
-- Sessions with a LED controller on an I2C bus, led/led.c: the MCUs of the block protocols and the N76
-- whose registers are accessed directly. A session of the other kinds (sysfs, the service, CS201X)
-- hands every call on to its own module; those are left out here, so `sysfs`, `service` and `cs201x`
-- are NULL. `LedIo` has the functions of `struct led_io`, on a controller and a host of any kind.
pub mod Read
pub mod Write
pub mod Identify
pub mod Probe
pub mod Laws
use ugreen_nas_hardware.Prelude.{
  ℕ, Bool, true, false, not, ◌&&◌, ◌||◌, List, [], ◌∷◌, ◌++◌, Option, none, some, ◌==◌,
  if◌then◌else◌, Bytes, bytes_eq, Result, ok, err, and_then, einval, eperm, enotsup, eio, estale,
}
use ugreen_nas_hardware.Led.Types.{LedDescriptor, LedProfile}
use ugreen_nas_hardware.Led.N76.{names}

-- A detected identity has a profile.
pub record LedIdentity : Type 0 where
  pub manufacturer : Bytes
  pub product_name : Bytes
  pub product_version : Bytes
  pub board_version : Bytes
  pub profile : LedProfile
  pub source : Bytes
  pub compatible : Bytes
  pub bios_vendor : Bytes
  pub bios_version : Bytes
  pub bios_date : Bytes

abbrev pub same_id : Option Bytes → Option Bytes → Bool
same_id (some a) (some b) = bytes_eq a b
same_id _ _ = false

unfoldable pub same_identity : LedIdentity → LedIdentity → Bool
unfolding bytes_eq
same_identity a b =
    same_id a.profile.profile_id b.profile.profile_id
    && bytes_eq a.source b.source
    && bytes_eq a.manufacturer b.manufacturer
    && bytes_eq a.product_name b.product_name
    && bytes_eq a.product_version b.product_version
    && bytes_eq a.board_version b.board_version
    && bytes_eq a.compatible b.compatible
    && bytes_eq a.bios_vendor b.bios_vendor
    && bytes_eq a.bios_version b.bios_version
    && bytes_eq a.bios_date b.bios_date

pub record LedAccess : Type 0 where
  pub force : Bool
  pub apply : Bool
  pub n76_direct : Bool
  pub n76_bus : ℕ
  pub n76_address : ℕ

-- What an open session keeps.
pub record LedSession : Type 0 where
  pub identity : LedIdentity
  pub access : LedAccess
  pub locked : Bool
  pub chip_id : ℕ
  pub n76_version : ℕ

pub record LedIo (Mcu : Type 0) : Type 0 where
  pub owners : Mcu → Result (Unit {0}) × Mcu
  pub read_chip_id : Mcu → Result ℕ × Mcu
  pub read_status : ℕ → Mcu → Result Bytes × Mcu
  pub write_command : ℕ → Bytes → Mcu → Result (Unit {0}) × Mcu
  pub read_ack : Mcu → Result (Unit {0}) × Mcu
  pub pause_ms : ℕ → Mcu → Mcu
  pub read_identity : Mcu → Result LedIdentity × Mcu
  pub read_byte : ℕ → Mcu → Result ℕ × Mcu
  pub write_byte : ℕ → ℕ → Mcu → Result (Unit {0}) × Mcu

-- An authorization that was given, and the writes that were tried.
pub data LedEvent : Type 0 where
  authorized : LedEvent
  sent_command : ℕ → Bytes → LedEvent
  sent_byte : ℕ → ℕ → LedEvent

-- The controller with its host, the events so far, the first one first, and `session->n76_failed`.
pub record LedWorld (Mcu : Type 0) : Type 0 where
  pub mcu : Mcu
  pub events : List LedEvent
  pub n76_failed : Bool

unfoldable pub find_led : ℕ → List LedDescriptor → Option LedDescriptor
find_led id [] = none
find_led id (led ∷ leds) = let later = find_led id leds in if led.id == id then some led else later

-- `find_target` of a session.
unfoldable pub session_target : LedSession → ℕ → Option LedDescriptor
unfolding find_led
session_target s id = find_led id s.identity.profile.leds

-- An id that can not be read is refused like a wrong one.
abbrev pub chip_matches : LedSession → Result ℕ → Bool
chip_matches s (err e) = false
chip_matches s (ok current) =
    not (current == 0)
    && not (s.chip_id == 0)
    && (current == s.identity.profile.expected_chip_id)
    && (current == s.chip_id)

-- The tests of the access that the session was opened with.
unfoldable pub check_access : LedSession → Result (Unit {0})
check_access s =
    if not s.locked
    then err einval
    else if not s.access.apply || (s.identity.profile.experimental && not s.access.force)
    then err eperm
    else ok tt

module _ {Mcu : Type 0} where
  -- A call that leaves events and the mark alone.
  abbrev pub call : {A : Type 0} → (Mcu → Result A × Mcu) → LedWorld Mcu → Result A × LedWorld Mcu
  call operation w = let (result, mcu') = operation w.mcu in (result, record w { mcu = mcu' })

  abbrev pub pause : LedIo Mcu → ℕ → LedWorld Mcu → LedWorld Mcu
  pause io ms w = record w { mcu = io.pause_ms ms w.mcu }

  abbrev pub log : LedEvent → LedWorld Mcu → LedWorld Mcu
  log event w = record w { events = w.events ++ event ∷ [] }

  unfoldable pub verify_session_identity :
      LedIo Mcu → LedSession → LedWorld Mcu → Result (Unit {0}) × LedWorld Mcu
  unfolding same_identity
  verify_session_identity io s w =
      and_then (call io.read_identity w)
        (λ current w'. (if same_identity s.identity current then ok tt else err estale, w'))

  -- The last tests of `authorize_write`, after the chip id.
  unfoldable pub authorize_protocol :
      LedIo Mcu → LedSession → LedWorld Mcu → Result (Unit {0}) × LedWorld Mcu
  unfolding names
  authorize_protocol io s w =
      let protocol = s.identity.profile.protocol in
      let version =
        and_then (call (io.read_byte 0x5d) w)
          (λ v w'. (if v == s.n76_version then ok tt else err estale, w')) in
      if s.access.n76_direct then (if w.n76_failed then (err eio, w) else version) else (
        if names protocol "legacy-i2c-block"
              || names protocol "smbus-block-be"
              || names protocol "smbus-block-le"
            then ok tt
            else err enotsup,
        w,
      )

  abbrev pub authorize_chip :
      LedIo Mcu → LedSession → Result ℕ × LedWorld Mcu → Result (Unit {0}) × LedWorld Mcu
  authorize_chip io s (current, w) =
      let rest = authorize_protocol io s w in
      if chip_matches s current then rest else (err enotsup, w)

  abbrev pub note_authorized : Result (Unit {0}) × LedWorld Mcu → Result (Unit {0}) × LedWorld Mcu
  note_authorized (err e, w) = (err e, w)
  note_authorized (ok _, w) = (ok tt, log authorized w)

  unfoldable pub authorize_write :
      LedIo Mcu → LedSession → LedWorld Mcu → Result (Unit {0}) × LedWorld Mcu
  unfolding check_access verify_session_identity authorize_protocol
  authorize_write io s w = note_authorized (
      and_then (check_access s, w)
        (λ _ w₁. and_then (verify_session_identity io s w₁) (λ _ w₂.
          and_then (call io.owners w₂) (λ _ w₃. authorize_chip io s (call io.read_chip_id w₃)))))
