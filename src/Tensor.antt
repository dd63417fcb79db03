-- ===== src/Tensor.antt =====
-- `Tensor` of runtime/include/objects.h and runtime/src/detail/collections.cpp.
pub mod Index
pub mod Bounds
pub mod Alias
pub mod Methods
pub mod Elements
