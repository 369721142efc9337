-- ===== src/Util.antt =====
-- The utilities of src/util: the sample buffer, JSON text, path validation.
pub mod PathValidator
pub mod RingBuffer
pub mod Json
