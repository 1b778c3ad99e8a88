-- ===== src/Led.antt =====
-- The LED controllers: the wire protocol of led/led_protocol.c and the N76 plans of
-- led/led_n76_protocol.c, the tables of models/led_profiles.c, and the sessions of led/led.c.
pub mod Types
pub mod Frame
pub mod Patch
pub mod N76
pub mod Profiles
pub mod Session
pub mod Owners
