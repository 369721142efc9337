-- ===== src/Events.antt =====
-- src/events: what the parts of the player tell the screen and each other.
pub mod Bus
pub mod Publisher
