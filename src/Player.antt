-- ===== src/Player.antt =====
-- src/player and src/events: the play queue, the playback engine and the controller over both.
pub mod AutoAdvance
pub mod DecodeThread
pub mod Controller
pub mod Engine
pub mod SongQueue
