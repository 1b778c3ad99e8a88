-- ===== src/Fan.antt =====
-- Fan policy and fan access.
pub mod Curve
pub mod Config
pub mod Load
pub mod Snapshot
pub mod Control
pub mod Hwmon
pub mod Maps
pub mod Daemon
pub mod Direct
