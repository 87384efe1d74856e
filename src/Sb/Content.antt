-- ===== src/Sb/Content.antt =====
-- The bytes that the buffer holds, and what becomes of them.
pub mod Bytes
pub mod Push
