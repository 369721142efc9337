-- ===== src/Commands.antt =====
-- src/commands: the text language of the player.
pub mod Queue
pub mod Dispatcher
pub mod Result
pub mod Quoting
mod Tests
