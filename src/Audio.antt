-- ===== src/Audio.antt =====
-- src/audio: the device that the samples go to.
pub mod Devices
pub mod Sink
