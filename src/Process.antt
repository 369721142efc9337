-- ===== src/Process.antt =====
-- What runs around the parts: the pipe that wakes a thread, the headless player, the watcher of the
-- root directory, the remote control of the terminal interface, and the command line.
pub mod SelfPipe
pub mod Daemon
pub mod Watcher
pub mod Remote
pub mod Main
mod Tests
