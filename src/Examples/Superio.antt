-- ===== src/Examples/Superio.antt =====
-- The theorems about the Super I/O chip at a chip with an index and a register file.
use ugreen_nas_hardware.Prelude.{
  ℕ, ◌≡◌, ◌≢◌, refl, arith, Bool, ◌&&◌, ◌||◌, true, false, [], some, ◌==◌, if◌then◌else◌, u8, ok,
  codes,
}
use ugreen_nas_hardware.Superio.{
  Machine, It86xDevice, OpenCalls, it86x_open, it86x_close, identify, sio_index, sio_data,
}
use ugreen_nas_hardware.Superio.Session.{IsReleased, OpenEnds, it86x_open-OpenEnds}
use ugreen_nas_hardware.Superio.Registers.{IsRegisterFile}
use ugreen_nas_hardware.Power.{
  startup_on, startup_unknown, read_startup_policy, set_startup_policy, set_opened, encode_policy,
  decode_policy,
}
use ugreen_nas_hardware.Power.Bits.{IsEncoded}
use ugreen_nas_hardware.Power.RoundTrip.{set_startup_policy_stores, set-read_startup_policy}
use ugreen_nas_hardware.Fan.Direct.{DirectChannel}

-- `last` are the three latest bytes on the index port, the latest last.
pub record Chip : Type 0 where
  pub index : ℕ
  pub last : ℕ × ℕ × ℕ
  pub config : Bool
  pub regs : ℕ → ℕ

abbrev is_key : ℕ × ℕ × ℕ → ℕ → Bool
is_key (a, b, c) value = (a == 0x87) && (b == 0x01) && (c == 0x55) && (value == 0x55)

-- What a write to the selected register does: only three of them can be written, and the value 2 in
-- register 2 leaves the configuration mode.
unfoldable write_data : ℕ → Chip → Chip
write_data value c =
    if (c.index == 7) || (c.index == 0xf2) || (c.index == 0xf4)
    then record c { regs = λ k. if c.index == k then u8 value else c.regs k }
    else if (c.index == 2) && (value == 2)
    then record c { config = false; last = (0, 0, 0) }
    else c

-- A chip whose data port answers in the configuration mode only.
unfoldable pub out_byte : ℕ → ℕ → Chip → Chip
unfolding write_data
out_byte value port c =
    if port == sio_index
    then record c {
      index = if c.config then value else c.index;
      last = (c.last.1, c.last.2, value);
      config = c.config || is_key c.last value;
    }
    else if (port == sio_data) && c.config
    then write_data value c
    else c

unfoldable pub in_byte : ℕ → Chip → ℕ × Chip
in_byte port c = if (port == sio_data) && c.config then (u8 (c.regs c.index), c) else (0, c)

abbrev in_config : Chip → Bool
in_config c = c.config

abbrev selected : Chip → ℕ
selected c = c.index

abbrev reg : Chip → ℕ → ℕ
reg c k = u8 (c.regs k)

or_true : (b : Bool) → (b || true) ≡ true
or_true b = ground arith

file : IsRegisterFile out_byte in_byte in_config selected reg
unfolding out_byte in_byte
file = record {
  key = λ c. or_true _;
  leave = λ k c on here h. ground arith;
  select = λ r c on. ground arith;
  select_keeps = λ r k c. refl;
  read = λ c on h. ground arith;
  read_keeps = λ k c. ground arith;
  write = λ v k c on h w. ground arith;
  is_byte = λ k c. omega arith;
}

abbrev pub machine : Machine Chip
machine = record {
  chip = record {
    index = 0;
    last = (0, 0, 0);
    config = false;
    regs = λ k. if k == 0x20 then 0x86 else if k == 0x21 then 0x13 else if k == 0x30 then 1 else 0;
  };
  writes = [];
  lock_open = false;
  sio_ports = false;
  hwm_ports = false;
}

abbrev pub calls : OpenCalls
calls = record {
  exists = λ path. false;
  open_lock = ok 3;
  flock_lock = ok tt;
  ioperm_sio = ok tt;
  ioperm_hwm = ok tt;
}

pub released : IsReleased machine
released = record { lock_closed = refl; sio_closed = refl; hwm_closed = refl }

it86x_open-OpenEnds_example : OpenEnds machine (it86x_open out_byte in_byte calls machine)
it86x_open-OpenEnds_example = it86x_open-OpenEnds out_byte in_byte calls machine released

abbrev device : It86xDevice
device = record {
  ports_enabled = true;
  config_open = true;
  lock_fd = some 3;
  chip_id = 0x8613;
  revision = 0;
}

abbrev opened : Machine Chip
opened = (it86x_open out_byte in_byte calls machine).1

opens : it86x_open out_byte in_byte calls machine ≡ (ok device, opened)
unfolding it86x_open identify out_byte in_byte
opens = refl

abbrev after : Machine Chip
after = (set_startup_policy out_byte in_byte calls startup_on machine).1

on_known : startup_on ≢ startup_unknown
on_known e = ground arith

set_startup_policy_stores_example :
    ((set_startup_policy out_byte in_byte calls startup_on machine).0 ≡ ok tt)
    × IsEncoded startup_on
        (reg machine.chip 0xf2)
        (reg machine.chip 0xf4)
        (reg after.chip 0xf2)
        (reg after.chip 0xf4)
    × (reg after.chip 0x20 ≡ reg machine.chip 0x20)
set_startup_policy_stores_example =
    set_startup_policy_stores out_byte in_byte in_config selected reg file calls startup_on machine
      opened device 0x20 opens on_known (omega arith) (omega arith) (omega arith) (omega arith)

abbrev reopened : Machine Chip
reopened = (it86x_open out_byte in_byte calls after).1

reopens : it86x_open out_byte in_byte calls after ≡ (ok device, reopened)
unfolding it86x_open identify out_byte in_byte set_startup_policy set_opened it86x_close
    encode_policy decode_policy
reopens = refl

set-read_startup_policy_example :
    (read_startup_policy out_byte in_byte calls after).0 ≡ ok startup_on
set-read_startup_policy_example =
    set-read_startup_policy out_byte in_byte in_config selected reg file calls calls startup_on
      machine opened reopened device device opens on_known reopens

abbrev channel : DirectChannel
channel = record {
  id = some (codes "fan1");
  control_register = 0x16;
  duty_register = 0x6b;
  tachometer_low_register = 0x0e;
  tachometer_high_register = 0x19;
  pwm_supported = true;
}
