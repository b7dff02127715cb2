-- ===== src/Ir.antt =====
-- The intermediate representation of WebAssembly modules (Include/WAVM/IR, Lib/IR).
pub mod Features
pub mod Types
pub mod Operators
pub mod Module
