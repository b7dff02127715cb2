-- ===== src/Inline.antt =====
-- The inline headers of Include/WAVM/Inline that hold logic of their own.
pub mod Unicode
pub mod Serialization
pub mod Leb128
pub mod IndexMap
