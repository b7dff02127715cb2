-- ===== src/Wasm.antt =====
-- The binary format: Lib/WASM/WASMSerialization.cpp.
pub mod Types
pub mod Definitions
pub mod Initializers
pub mod Segments
pub mod Imports
pub mod Sections
