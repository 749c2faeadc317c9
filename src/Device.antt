-- ===== src/Device.antt =====
-- The devices: nemu/src/device.
pub mod Map
pub mod Apart
pub mod Layout
pub mod Keyboard
pub mod Ports
pub mod Playback
pub mod PortIo
pub mod Sdcard
