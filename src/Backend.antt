-- ===== src/Backend.antt =====
-- The C templates of runtime/backend to which collections are lowered.
pub mod Entries
pub mod Hashtable
pub mod Pointers
pub mod Nesting
pub mod Vector
