-- ===== src/Service.antt =====
-- src/service: the services behind the command language.
pub mod Config
pub mod Async
pub mod Library
