-- ===== src/Fan/Direct.antt =====
-- Fan channels through the Super I/O chip, fan/it8613_direct.c.
pub mod Write
use ugreen_nas_hardware.Prelude.{
  ℕ, ◌+◌, ◌*◌, ◌/◌, Bool, true, false, not, ◌&&◌, ◌||◌, List, [], ◌∷◌, Option, none, some, ◌==◌,
  ltb, if◌then◌else◌, bit_and, length, take, Bytes, Result, ok, err, ◌>>=◌, einval, eio, eperm,
  enotsup,
}
use ugreen_nas_hardware.Superio.{
  Machine, It86xDevice, OpenCalls, it86x_open, it86x_close, hwm_read, hwm_write,
}

abbrev pub max_fans : ℕ
max_fans = 8

abbrev pub min_manual_pwm : ℕ
min_manual_pwm = 40

-- `id` is `none` for NULL.
pub record DirectChannel : Type 0 where
  pub id : Option Bytes
  pub control_register : ℕ
  pub duty_register : ℕ
  pub tachometer_low_register : ℕ
  pub tachometer_high_register : ℕ
  pub pwm_supported : Bool

pub record FanStatus : Type 0 where
  pub id : Bytes  -- char[16]
  pub pwm : ℕ
  pub pwm_known : Bool
  pub manual : Bool
  pub mode_known : Bool
  pub tachometer : ℕ
  pub rpm : ℕ

-- `snprintf` into the 16 bytes of `id` keeps 15 characters.
abbrev pub id_text : Option Bytes → Bytes
id_text none = []
id_text (some text) = take 15 text

abbrev pub has_id : Option Bytes → Bool
has_id none = false
has_id (some []) = false
has_id (some (c ∷ cs)) = true

unfoldable pub ids_valid : List DirectChannel → Result (Unit {0})
ids_valid [] = ok tt
ids_valid (c ∷ cs) = if not (has_id c.id) then err einval else ids_valid cs

-- A NULL array is `none`.
unfoldable pub validate_mapping : Option (List DirectChannel) → Result (List DirectChannel)
unfolding ids_valid
validate_mapping none = err einval
validate_mapping (some channels) =
    if length channels == 0 || ltb max_fans (length channels)
    then err einval
    else ids_valid channels >>= λ _. ok channels

-- All-ones readings of either width mean that there is no tachometer.
unfoldable pub rpm_of : ℕ → ℕ
rpm_of tachometer =
    if tachometer == 0 || tachometer == 0x0fff || tachometer == 0xffff
    then 0
    else 675000 / tachometer

module _ {Chip : Type 0} (out_byte : ℕ → ℕ → Chip → Chip) (in_byte : ℕ → Chip → ℕ × Chip) where
  -- The high tachometer byte is read first; C leaves the order of the two reads open.
  unfoldable pub read_channel : DirectChannel → Machine Chip → FanStatus × Machine Chip
  unfolding rpm_of
  read_channel c m =
      let (high, m₁) = hwm_read out_byte in_byte c.tachometer_high_register m in
      let (low, m₂) = hwm_read out_byte in_byte c.tachometer_low_register m₁ in
      let tachometer = high * 256 + low in
      let (control, m₃) = hwm_read out_byte in_byte c.control_register m₂ in
      let (duty, m₄) = hwm_read out_byte in_byte c.duty_register m₃ in
      let manual = bit_and control 0x80 == 0 in
      if c.pwm_supported
      then (
        record {
          id = id_text c.id;
          pwm = duty;
          pwm_known = true;
          manual = manual;
          mode_known = manual;
          tachometer = tachometer;
          rpm = rpm_of tachometer;
        },
        m₄,
      )
      else (
        record {
          id = id_text c.id;
          pwm = 0;
          pwm_known = false;
          manual = false;
          mode_known = false;
          tachometer = tachometer;
          rpm = rpm_of tachometer;
        },
        m₂,
      )

  unfoldable pub read_channels : List DirectChannel → Machine Chip → List FanStatus × Machine Chip
  unfolding read_channel
  read_channels [] m = ([], m)
  read_channels (c ∷ cs) m =
      let (fan, m₁) = read_channel c m in let (fans, m₂) = read_channels cs m₁ in (fan ∷ fans, m₂)

  unfoldable pub read_opened :
      List DirectChannel
      → Result It86xDevice × Machine Chip
      → Result (List FanStatus) × Machine Chip
  unfolding read_channels
  read_opened channels (err e, m) = (err e, m)
  read_opened channels (ok device, m) =
      let (fans, m₁) = read_channels channels m in (ok fans, it86x_close out_byte in_byte device m₁)

  unfoldable pub read_mapped :
      OpenCalls
      → Result (List DirectChannel)
      → Machine Chip
      → Result (List FanStatus) × Machine Chip
  unfolding read_opened
  read_mapped calls (err e) m = (err e, m)
  read_mapped calls (ok channels) m = read_opened channels (it86x_open out_byte in_byte calls m)

  -- The output buffers are taken to be given.
  unfoldable pub direct_read_fans :
      OpenCalls
      → Option (List DirectChannel)
      → Machine Chip
      → Result (List FanStatus) × Machine Chip
  unfolding validate_mapping read_mapped
  direct_read_fans calls channels m = read_mapped calls (validate_mapping channels) m

  -- Clear the manual bit, check it, write the duty and check it.
  unfoldable pub set_channel_manual_pwm :
      DirectChannel → ℕ → Machine Chip → Result (Unit {0}) × Machine Chip
  set_channel_manual_pwm c pwm m =
      let (control, m₁) = hwm_read out_byte in_byte c.control_register m in
      let m₂ = hwm_write out_byte in_byte c.control_register (bit_and control 0x7f) m₁ in
      let (readback, m₃) = hwm_read out_byte in_byte c.control_register m₂ in
      let m₄ = hwm_write out_byte in_byte c.duty_register pwm m₃ in
      let (duty, m₅) = hwm_read out_byte in_byte c.duty_register m₄ in
      if not (bit_and readback 0x80 == 0)
      then (err eio, m₃)
      else if not (duty == pwm)
      then (err eio, m₅)
      else (ok tt, m₅)

  abbrev pub after_channel :
      Result (Unit {0}) × Machine Chip
      → (Machine Chip → Result (Unit {0}) × Machine Chip)
      → Result (Unit {0}) × Machine Chip
  after_channel (err e, m) rest = (err e, m)
  after_channel (ok _, m) rest = rest m

  unfoldable pub set_channels :
      List DirectChannel → ℕ → Machine Chip → Result (Unit {0}) × Machine Chip
  unfolding set_channel_manual_pwm
  set_channels [] pwm m = (ok tt, m)
  set_channels (c ∷ cs) pwm m =
      after_channel (set_channel_manual_pwm c pwm m) (λ m'. set_channels cs pwm m')

  unfoldable pub set_opened :
      List DirectChannel → ℕ → Result It86xDevice × Machine Chip → Result (Unit {0}) × Machine Chip
  unfolding set_channels
  set_opened channels pwm (err e, m) = (err e, m)
  set_opened channels pwm (ok device, m) =
      let (result, m₁) = set_channels channels pwm m in
      (result, it86x_close out_byte in_byte device m₁)

abbrev pub all_supported : List DirectChannel → Bool
all_supported [] = true
all_supported (c ∷ cs) = c.pwm_supported && all_supported cs

-- The checks before the controller is opened.
unfoldable pub check_request : Option (List DirectChannel) → ℕ → Result (List DirectChannel)
unfolding validate_mapping
check_request channels pwm = validate_mapping channels >>= λ cs.
    if ltb pwm min_manual_pwm
    then err eperm
    else if not (all_supported cs)
    then err enotsup
    else ok cs

module _ {Chip : Type 0} (out_byte : ℕ → ℕ → Chip → Chip) (in_byte : ℕ → Chip → ℕ × Chip) where
  unfoldable pub set_checked :
      OpenCalls → ℕ → Result (List DirectChannel) → Machine Chip → Result (Unit {0}) × Machine Chip
  unfolding set_opened
  set_checked calls pwm (err e) m = (err e, m)
  set_checked calls pwm (ok channels) m =
      set_opened out_byte in_byte channels pwm (it86x_open out_byte in_byte calls m)

  unfoldable pub direct_set_manual_pwm :
      OpenCalls → Option (List DirectChannel) → ℕ → Machine Chip → Result (Unit {0}) × Machine Chip
  unfolding set_checked check_request
  direct_set_manual_pwm calls channels pwm m = set_checked calls pwm (check_request channels pwm) m
