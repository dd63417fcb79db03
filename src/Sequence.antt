-- ===== src/Sequence.antt =====
-- `Sequence`, `SequenceAlloc` and `SequenceView` of runtime/include/objects.h and
-- runtime/src/detail/collections.cpp.
pub mod Iterators
pub mod Methods
pub mod Join
pub mod Valid
pub mod Mutate
pub mod Elements
pub mod Frame
pub mod View
