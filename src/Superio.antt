-- ===== src/Superio.antt =====
-- The IT86x Super I/O transport of superio/it86x.c: port access, and a session that holds a lock,
-- two port ranges and the chip's configuration mode. The chip is a parameter: `out_byte value port`
-- and `in_byte port` are the `outb` and `inb` of the machine.
pub mod Session
pub mod Registers
use ugreen_nas_hardware.Prelude.{
  ℕ, ◌+◌, ◌*◌, ◌%◌, ◌^◌, Bool, true, false, not, List, [], ◌∷◌, Option, none, some, String, ◌==◌,
  if◌then◌else◌, u8, bit_and, Result, ok, err, Errno, ebusy, enodev,
}

abbrev pub sio_index : ℕ
sio_index = 0x2e

abbrev pub sio_data : ℕ
sio_data = 0x2f

abbrev pub hwm_index : ℕ
hwm_index = 0xa35

abbrev pub hwm_data : ℕ
hwm_data = 0xa36

abbrev pub it8613_id : ℕ
it8613_id = 0x8613

-- The chip, what the process holds, and every port write as (port, value), the latest first.
pub record Machine (Chip : Type 0) : Type 0 where
  pub chip : Chip
  pub writes : List (ℕ × ℕ)
  pub lock_open : Bool
  pub sio_ports : Bool
  pub hwm_ports : Bool

-- `lock_fd` is `none` for -1.
pub record It86xDevice : Type 0 where
  pub ports_enabled : Bool
  pub config_open : Bool
  pub lock_fd : Option ℕ
  pub chip_id : ℕ
  pub revision : ℕ

unfoldable pub empty_device : It86xDevice
empty_device = record {
  ports_enabled = false;
  config_open = false;
  lock_fd = none;
  chip_id = 0;
  revision = 0;
}

-- How the system calls of `it86x_open` end, in their order.
pub record OpenCalls : Type 0 where
  pub exists : String → Bool  -- access(path, F_OK) == 0
  pub open_lock : Result ℕ
  pub flock_lock : Result (Unit {0})
  pub ioperm_sio : Result (Unit {0})
  pub ioperm_hwm : Result (Unit {0})

unfoldable pub first_existing : (String → Bool) → List String → Option String
first_existing exists [] = none
first_existing exists (path ∷ paths) =
    if exists path then some path else first_existing exists paths

unfoldable pub active_controller_owner : (String → Bool) → Option String
unfolding first_existing
active_controller_owner exists = first_existing exists (
    "/proc/it86" ∷ "/sys/module/ug_it86x_sio" ∷ "/sys/module/ug_it86x_cpufan" ∷ "/sys/module/it87"
    ∷ [])

module _ {Chip : Type 0} (out_byte : ℕ → ℕ → Chip → Chip) (in_byte : ℕ → Chip → ℕ × Chip) where
  unfoldable pub outb : ℕ → ℕ → Machine Chip → Machine Chip
  outb value port m = record m {
    chip = out_byte value port m.chip;
    writes = (port, value) ∷ m.writes;
  }

  unfoldable pub inb : ℕ → Machine Chip → ℕ × Machine Chip
  inb port m = let (value, chip') = in_byte port m.chip in (u8 value, record m { chip = chip' })

  unfoldable pub sio_enter : Machine Chip → Machine Chip
  unfolding outb
  sio_enter m =
      outb 0x55 sio_index (outb 0x55 sio_index (outb 0x01 sio_index (outb 0x87 sio_index m)))

  unfoldable pub sio_exit : Machine Chip → Machine Chip
  unfolding outb
  sio_exit m = outb 0x02 sio_data (outb 0x02 sio_index m)

  unfoldable pub sio_read : ℕ → Machine Chip → ℕ × Machine Chip
  unfolding outb inb
  sio_read reg m = inb sio_data (outb reg sio_index m)

  unfoldable pub sio_write : ℕ → ℕ → Machine Chip → Machine Chip
  unfolding outb
  sio_write reg value m = outb value sio_data (outb reg sio_index m)

  unfoldable pub hwm_read : ℕ → Machine Chip → ℕ × Machine Chip
  unfolding outb inb
  hwm_read reg m = inb hwm_data (outb reg hwm_index m)

  unfoldable pub hwm_write : ℕ → ℕ → Machine Chip → Machine Chip
  unfolding outb
  hwm_write reg value m = outb value hwm_data (outb reg hwm_index m)

  abbrev close_lock : Option ℕ → Machine Chip → Machine Chip
  close_lock none m = m
  close_lock (some fd) m = record m { lock_open = false }

  -- Closing zeroes the device.
  unfoldable pub it86x_close : It86xDevice → Machine Chip → Machine Chip
  unfolding sio_exit
  it86x_close device m =
      let m₁ = if device.config_open then sio_exit m else m in
      let m₂ =
        if device.ports_enabled then record m₁ { sio_ports = false; hwm_ports = false } else m₁ in
      close_lock device.lock_fd m₂

  -- The logical device must be active, and the chip an IT8613.
  unfoldable pub check_identity : It86xDevice → ℕ → Machine Chip → Result It86xDevice × Machine Chip
  check_identity device active m =
      if bit_and active 0x01 == 0
      then (err enodev, it86x_close device m)
      else if not (device.chip_id == it8613_id)
      then (err enodev, it86x_close device m)
      else (ok device, m)

  -- Enter the configuration, read the identity, select the hardware monitor and read whether it
  -- is active.
  unfoldable pub probe_chip : It86xDevice → Machine Chip → It86xDevice × ℕ × Machine Chip
  unfolding sio_enter sio_read sio_write
  probe_chip device m =
      let m₁ = sio_enter m in
      let (high, m₂) = sio_read 0x20 m₁ in
      let (low, m₃) = sio_read 0x21 m₂ in
      let (revision, m₄) = sio_read 0x22 m₃ in
      let m₅ = sio_write 0x07 0x04 m₄ in
      let (active, m₆) = sio_read 0x30 m₅ in
      let device' = record device {
        config_open = true;
        chip_id = high * 256 + low;
        revision = bit_and revision 0x0f;
      } in
      (device', active, m₆)

  unfoldable pub identify : It86xDevice → Machine Chip → Result It86xDevice × Machine Chip
  unfolding probe_chip check_identity
  identify device m =
      let (device', active, m') = probe_chip device m in check_identity device' active m'

  unfoldable pub with_hwm_ports :
      OpenCalls → Result (Unit {0}) → It86xDevice → Machine Chip → Result It86xDevice × Machine Chip
  with_hwm_ports calls (err e) device m =
      (err e, it86x_close device (record m { sio_ports = false }))
  with_hwm_ports calls (ok _) device m =
      identify (record device { ports_enabled = true }) (record m { hwm_ports = true })

  unfoldable pub with_sio_ports :
      OpenCalls → Result (Unit {0}) → It86xDevice → Machine Chip → Result It86xDevice × Machine Chip
  unfolding with_hwm_ports
  with_sio_ports calls (err e) device m = (err e, it86x_close device m)
  with_sio_ports calls (ok _) device m =
      with_hwm_ports calls calls.ioperm_hwm device (record m { sio_ports = true })

  unfoldable pub with_flock :
      OpenCalls → Result (Unit {0}) → It86xDevice → Machine Chip → Result It86xDevice × Machine Chip
  unfolding with_sio_ports
  with_flock calls (err e) device m = (err e, it86x_close device m)
  with_flock calls (ok _) device m = with_sio_ports calls calls.ioperm_sio device m

  unfoldable pub with_lock : OpenCalls → Result ℕ → Machine Chip → Result It86xDevice × Machine Chip
  unfolding with_flock empty_device
  with_lock calls (err e) m = (err e, m)
  with_lock calls (ok fd) m =
      with_flock calls calls.flock_lock (record empty_device { lock_fd = some fd })
        (record m { lock_open = true })

  unfoldable pub it86x_open : OpenCalls → Machine Chip → Result It86xDevice × Machine Chip
  unfolding active_controller_owner with_lock
  it86x_open calls m = elim (active_controller_owner calls.exists) [
    | some owner ↦ (err ebusy, m)
    | none ↦ with_lock calls calls.open_lock m
  ]
