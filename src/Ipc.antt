-- ===== src/Ipc.antt =====
-- src/ipc: the control socket. The system calls are scripts of their results.
pub mod SocketIo
pub mod Server
pub mod Client
pub mod Example
mod Tests
