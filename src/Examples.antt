-- ===== src/Examples.antt =====
-- Runs at concrete inputs, and each theorem with hypotheses at an input that meets them.
mod Curve
mod Daemon
mod Superio
mod Led
mod Wake
mod Load
mod Snapshot
mod Hwmon
mod Fans
mod Network
mod LedSession
mod Disk
mod Owners
