-- ===== src/Validate.antt =====
-- The validator of modules and function bodies: Lib/IR/Validate.cpp.
pub mod Result
pub mod Types
pub mod References
pub mod State
pub mod Imms
pub mod Control
pub mod Parametric
pub mod Function
pub mod Sections
pub mod Segments
pub mod Sound
pub mod Pops
pub mod Keeps
pub mod Nesting
