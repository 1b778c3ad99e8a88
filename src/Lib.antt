-- ===== src/Lib.antt =====
-- Verification of ugreenctl, the hardware control of this repository for UGREEN NAS boxes.
--
-- The program's parts. A command line (core/main.c, core/hardware_cli.c, core/wake_cli.c) and a fan
-- daemon (core/fan_daemon.c) act on fans, LEDs, the AC-recovery policy, Wake-on-LAN and the RTC
-- alarm. The daemon reads temperatures, turns them into a PWM value for each channel with the curve
-- of fan/thermal_curve.c, holds a lower value back for a while, and starts `ugreenctl fan set` as a
-- child process for each change. That command writes through hwmon or, in fan/it8613_direct.c,
-- through the Super I/O chip with the transport of superio/it86x.c, which power/it8613_power.c uses
-- too. LED requests pass the checks of led/led_protocol.c before they become frames or, for the N76,
-- a plan of register writes, which a session of led/led.c sends after each authorization. disk/disk.c
-- maps disks to bays, by the firmware's tables or a calibration, and names the LED of a bay by the
-- tables of models/led_profiles.c.
--
-- Which file models which part:
--   Prelude           shared names; tests on numbers, lists, words, error results, C strings,
--                     Prelude/Decimal the digits of %u, Prelude/Scan strtoul, strtoll and isspace,
--                     Prelude/Written the writes of a chain of steps
--   Fan/Curve         fan/thermal_curve.c: interpolation, the evaluation of one source, the CPU floor and
--                     the plan; Curve/Interpolate, Source and Parts hold the lemmas, Curve/Plan and
--                     Curve/Demand the theorems
--   Fan/Config        fan/thermal_curve.c: defaults, stock profiles (Config/Stock) and validation
--                     (Config/Valid)
--   Fan/Load          fan/thermal_curve.c: the configuration file, with its values in Load/Values and the
--                     round trip in Load/Laws
--   Fan/Snapshot      fan/thermal_curve.c: the temperatures from hwmon files; Snapshot/Ata those of the
--                     drives, with Ata/Safe and Ata/Smart
--   Fan/Control       the configuration file, the temperatures and the plan together
--   Fan/Hwmon         fan/it8613_hwmon.c: Hwmon/Find the device, Hwmon/Ends the lock, Hwmon/Sequence the
--                     writes
--   Fan/Maps          fan/it8613_fan.c and fan/it8613_dx*.c: Maps/Tables and Maps/Models; Maps/Laws on the
--                     tables, Laws/Release on both ways together
--   Fan/Daemon        core/fan_daemon.c: Daemon/Routes the model table, Daemon/Hold the delay, Daemon a
--                     round and runs of rounds; Steps, Rounds, Patience and Guarantees hold the proofs
--   Fan/Direct        fan/it8613_direct.c, with its theorems in Direct/Write
--   Superio           superio/it86x.c; Superio/Session on what a session holds, Superio/Registers on
--                     what it changes in the chip
--   Power             power/it8613_power.c; Power/Bits on the bits, Power/Policy and Power/RoundTrip
--   Led               led/led.h and led/led_protocol.c: Led/Types, Led/Frame and Led/Patch;
--                     led/led_n76_protocol.c: Led/N76; models/led_profiles.c: Led/Profiles; each with
--                     its Laws
--   Led/Session       led/led.c: Session the authorization of a write, Session/Read, Session/Write and
--                     Session/Identify; Laws/Trace on what is sent, Laws/Meets on what is read back,
--                     Laws/Failed on the mark of a failure, Laws/Restore on the state after blinking,
--                     Laws/Allowed on the authorization; Session/Probe the search for the controller
--   Led/Owners        led/led.c: which commands drive the LED controller themselves
--   Disk              disk/firmware_profiles.c: Disk/Firmware with its tables; disk/disk.c: Disk/Resolve
--                     the choice of a disk, Disk/Calibration the calibration file, Disk/Rules the bays
--                     of the firmware's rules, Disk/Namespaces the namespaces of a controller; each
--                     with its Laws
--   Wake              power/rtc_wake.c, Wake/Parse its parser, Wake/Laws its theorems;
--                     models/wake_profiles.c: Wake/Profiles
--   Network           network/wol.c; Network/Pci the search for interfaces, Network/Models the tables of
--                     network/wol_dx*.c, Network/Laws, Laws/Candidates and Laws/Select the theorems
--   Identity          core/identity.c: device-tree tokens and canonical names
--   Examples          the theorems at concrete inputs
--
-- How the code corresponds. A function keeps its name without the prefix `ugreenctl_` or `it8613_`,
-- a struct is a record, and an `int` result is `ok` or `err` with the errno. The text that goes to
-- an `error` buffer is left out. A pointer that may be NULL is an Option. State is passed on: the
-- daemon's holds, `Machine` for the chip with the lock and the port ranges that the process holds,
-- `World` for the files of the alarm, `HwmonWorld` for those of hwmon, `WolWorld` for the network
-- interfaces, `LedWorld` for a LED controller with the events so far, which are there for the
-- theorems only. System calls, the child process, the chip and the files are parameters, for any
-- answers they may give; the theorems about registers assume a chip whose data port reaches the
-- registers in the configuration mode only and whose identity registers need not be writable
-- (Superio/Registers).
--
-- Bounds. Numbers are natural numbers, with a wrap-around written out where the C type wraps; the
-- daemon's clock difference is 64 bits wide. A temperature is an integer, negative for a missing
-- sensor. There is fuel in Prelude/Decimal, one unit more than the number, and in the search of the
-- sense data in Fan/Snapshot/Ata, the length of the data: a pass takes two bytes at least, and
-- running out counts as a fault there. Reading a LED is tried three times, as in the code, and showing
-- which LED it is counts its ticks down. Other loops are recursion on lists. An epoch is not negative:
-- the code refuses a negative one with the ones in the past, and 0 stands for no alarm.
--
-- Not modelled: the command line and its printing, the plugin loader, the Wake-on-LAN policy of one
-- named interface (network/wol_interface.c), opening a LED session and the transports over sysfs, GPIO
-- and CS201X (led/led_sysfs.c, led/led_gpio.c, led/led_cs201x.c), the LED service, and in disk/disk.c
-- the walk through /sys with the checks of controllers and bridges. They are input and output for the
-- most part; their checks and parsers are the next to be modelled.
pub mod Disk
pub mod Examples
pub mod Fan
pub mod Identity
pub mod Led
pub mod Network
pub mod Power
pub mod Prelude
pub mod Superio
pub mod Wake
