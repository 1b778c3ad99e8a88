-- ===== src/Fan/Hwmon.antt =====
-- Fan channels through the kernel's hwmon files, fan/it8613_hwmon.c. The files are a parameter:
-- `read_file path` and `write_file path value` open, read or write, and close; they end with an errno
-- or with the bytes read, or the number of bytes written; `wait` is the pause of two seconds.
pub mod Find
pub mod Ends
pub mod Sequence
use ugreen_nas_hardware.Prelude.{
  ℕ, ◌+◌, ◌-◌, ◌*◌, ◌/◌, Bool, true, false, not, ◌||◌, List, [], ◌∷◌, ◌++◌, Option, none, some, ltb,
  leb, ◌==◌, if◌then◌else◌, length, take, Bytes, String, codes, Result, ok, err, and_then, einval,
  eio, eperm, erange, ebusy,
}
use ugreen_nas_hardware.Prelude.Decimal.{decimal}
use ugreen_nas_hardware.Prelude.Scan.{is_empty, until_nul, trim_end, strtoul}
use ugreen_nas_hardware.Fan.Direct.{FanStatus, max_fans, min_manual_pwm, id_text}
use ugreen_nas_hardware.Superio.{first_existing}
use Find.{NamedEntry, find_it8613_hwmon, build_path}

-- The files, every write that was tried, the first one first, and whether the lock is held.
pub record HwmonWorld (Files : Type 0) : Type 0 where
  pub files : Files
  pub writes : List (Bytes × Bytes)
  pub lock_open : Bool

pub record HwmonChannel : Type 0 where
  pub id : Option Bytes
  pub pwm_index : ℕ
  pub fan_index : ℕ

-- How the calls of `it8613_hwmon_open` end, in their order; `root` is the directory listed.
pub record HwmonCalls : Type 0 where
  pub exists : String → Bool
  pub open_lock : Result (Unit {0})
  pub flock_lock : Result (Unit {0})
  pub root : Bytes
  pub entries : Result (List NamedEntry)

unfoldable pub incompatible_controller_owner : (String → Bool) → Option String
incompatible_controller_owner exists =
    first_existing exists
      ("/proc/it86" ∷ "/sys/module/ug_it86x_sio" ∷ "/sys/module/ug_it86x_cpufan" ∷ [])

-- The bytes of a node: one `read` of 63 bytes.
unfoldable pub text_of : Bytes → Bytes
text_of bytes = until_nul (trim_end (take 63 bytes))

unfoldable pub unsigned_of : Bytes → Result ℕ
unsigned_of text =
    let parsed = strtoul text in
    if parsed.out_of_range || is_empty text || not (is_empty parsed.rest)
    then err einval
    else ok parsed.value

-- A name such as `pwm2_enable`, below the device.
unfoldable pub channel_node_path : Bytes → String → ℕ → String → Result Bytes
channel_node_path device before index behind =
    let name = codes before ++ decimal index ++ codes behind in
    if leb 32 (length name) then err einval else build_path device name

abbrev pub tachometer_of : ℕ → ℕ
tachometer_of rpm = if rpm == 0 then 0 else if ltb 65535 (675000 / rpm) then 65535 else 675000 / rpm

abbrev pub fan_of : HwmonChannel → ℕ → ℕ → ℕ → FanStatus
fan_of c pwm enable rpm = record {
  id = id_text c.id;
  pwm = pwm;
  pwm_known = true;
  manual = enable == 1;
  mode_known = enable == 1;
  tachometer = tachometer_of rpm;
  rpm = rpm;
}

module _ {Files : Type 0} (read_file : Bytes → Files → Result Bytes × Files)
    (write_file : Bytes → Bytes → Files → Result ℕ × Files) (wait : Files → Files) where
  unfoldable pub read_unsigned_file : Bytes → HwmonWorld Files → Result ℕ × HwmonWorld Files
  unfolding text_of unsigned_of
  read_unsigned_file path w =
      let (result, files') = read_file path w.files in
      and_then (result, record w { files = files' }) (λ bytes w'. (unsigned_of (text_of bytes), w'))

  -- `path` may be an error already.
  unfoldable pub read_node : Result Bytes → HwmonWorld Files → Result ℕ × HwmonWorld Files
  unfolding read_unsigned_file
  read_node path w = and_then (path, w) (λ p w'. read_unsigned_file p w')

  unfoldable pub read_channel :
      Bytes → HwmonChannel → HwmonWorld Files → Result FanStatus × HwmonWorld Files
  unfolding read_node channel_node_path
  read_channel device c w =
      and_then (read_node (channel_node_path device "pwm" c.pwm_index "") w) (λ pwm w₁.
        and_then (if ltb 255 pwm then err erange else ok tt, w₁)
          (λ _ w₂.
            and_then (read_node (channel_node_path device "pwm" c.pwm_index "_enable") w₂)
              (λ enable w₃.
                and_then (read_node (channel_node_path device "fan" c.fan_index "_input") w₃)
                  (λ rpm w₄. (ok (fan_of c pwm enable rpm), w₄)))))

  unfoldable pub write_unsigned_file :
      Bytes → ℕ → HwmonWorld Files → Result (Unit {0}) × HwmonWorld Files
  write_unsigned_file path value w =
      let text = decimal value ++ b'\n' ∷ [] in
      let (result, files') = write_file path text w.files in
      and_then (result, record w { files = files'; writes = w.writes ++ (path, text) ∷ [] })
        (λ written w'. (if written == length text then ok tt else err eio, w'))

  -- The second reading, after the pause.
  unfoldable pub read_again : Bytes → ℕ → HwmonWorld Files → Result (Unit {0}) × HwmonWorld Files
  unfolding read_unsigned_file
  read_again path expected w =
      and_then (read_unsigned_file path (record w { files = wait w.files }))
        (λ actual w'. (if actual == expected then ok tt else err eio, w'))

  unfoldable pub write_and_verify :
      Bytes → ℕ → HwmonWorld Files → Result (Unit {0}) × HwmonWorld Files
  unfolding write_unsigned_file read_unsigned_file read_again
  write_and_verify path expected w = and_then (write_unsigned_file path expected w) (λ _ w₁.
      and_then (read_unsigned_file path w₁)
        (λ actual w₂. if actual == expected then (ok tt, w₂) else read_again path expected w₂))

  unfoldable pub set_channel_manual_pwm :
      Bytes → HwmonChannel → ℕ → HwmonWorld Files → Result (Unit {0}) × HwmonWorld Files
  unfolding channel_node_path write_and_verify
  set_channel_manual_pwm device c pwm w =
      and_then (channel_node_path device "pwm" c.pwm_index "_enable", w)
        (λ enable_path w₁. and_then (write_and_verify enable_path 1 w₁) (λ _ w₂.
          and_then (channel_node_path device "pwm" c.pwm_index "", w₂)
            (λ pwm_path w₃. write_and_verify pwm_path pwm w₃)))

  -- The lock is held from its opening; a device that is not found gives it back.
  abbrev pub hold_if_found : Result Bytes → HwmonWorld Files → Result Bytes × HwmonWorld Files
  hold_if_found (ok path) w = (ok path, record w { lock_open = true })
  hold_if_found (err e) w = (err e, record w { lock_open = false })

  -- The path of the device; a failure gives the lock back.
  unfoldable pub it8613_hwmon_open : HwmonCalls → HwmonWorld Files → Result Bytes × HwmonWorld Files
  unfolding incompatible_controller_owner find_it8613_hwmon
  it8613_hwmon_open calls w = elim (incompatible_controller_owner calls.exists) [
    | some owner ↦ (err ebusy, w)
    | none ↦
        and_then (calls.open_lock, w)
          (λ _ w₁.
            and_then (calls.flock_lock, w₁)
              (λ _ w₂. hold_if_found (find_it8613_hwmon calls.root calls.entries) w₂))
  ]

  unfoldable pub it8613_hwmon_close : HwmonWorld Files → HwmonWorld Files
  it8613_hwmon_close w = record w { lock_open = false }

  -- The result of a loop over the channels, with the session closed.
  unfoldable pub closing : {A : Type 0} → Result A × HwmonWorld Files → Result A × HwmonWorld Files
  unfolding it8613_hwmon_close
  closing (result, w) = (result, it8613_hwmon_close w)

  unfoldable pub read_channels :
      Bytes → List HwmonChannel → HwmonWorld Files → Result (List FanStatus) × HwmonWorld Files
  unfolding read_channel
  read_channels device [] w = (ok [], w)
  read_channels device (c ∷ cs) w =
      and_then (read_channel device c w)
        (λ fan w₁. and_then (read_channels device cs w₁) (λ fans w₂. (ok (fan ∷ fans), w₂)))

  unfoldable pub set_channels :
      Bytes → List HwmonChannel → ℕ → HwmonWorld Files → Result (Unit {0}) × HwmonWorld Files
  unfolding set_channel_manual_pwm
  set_channels device [] pwm w = (ok tt, w)
  set_channels device (c ∷ cs) pwm w =
      and_then (set_channel_manual_pwm device c pwm w) (λ _ w₁. set_channels device cs pwm w₁)

  -- `none` for NULL.
  unfoldable pub hwmon_read_fans :
      HwmonCalls
      → Option (List HwmonChannel)
      → HwmonWorld Files
      → Result (List FanStatus) × HwmonWorld Files
  unfolding it8613_hwmon_open read_channels closing
  hwmon_read_fans calls none w = (err einval, w)
  hwmon_read_fans calls (some channels) w =
      if length channels == 0 || ltb max_fans (length channels)
      then (err einval, w)
      else and_then (it8613_hwmon_open calls w)
          (λ device w'. closing (read_channels device channels w'))

  unfoldable pub hwmon_set_manual_pwm :
      HwmonCalls
      → Option (List HwmonChannel)
      → ℕ
      → HwmonWorld Files
      → Result (Unit {0}) × HwmonWorld Files
  unfolding it8613_hwmon_open set_channels closing
  hwmon_set_manual_pwm calls none pwm w = (err einval, w)
  hwmon_set_manual_pwm calls (some channels) pwm w =
      if length channels == 0 || ltb max_fans (length channels)
      then (err einval, w)
      else if ltb pwm min_manual_pwm
      then (err eperm, w)
      else and_then (it8613_hwmon_open calls w)
          (λ device w'. closing (set_channels device channels pwm w'))
