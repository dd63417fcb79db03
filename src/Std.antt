-- ===== src/Std.antt =====
-- The parts of the C++ standard library that the runtime uses.
pub mod Sets
pub mod Map
pub mod Bits
pub mod Pointwise
pub mod Vector
