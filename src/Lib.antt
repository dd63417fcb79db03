-- ===== src/Lib.antt =====
-- The runtime of MEMOIR, a representation of objects and collections for a compiler: the data model
-- and the operations of runtime/ as functions on a state, two of the C templates to which its
-- collections are lowered, its strings, and the types of the compiler, with theorems on what they do.
--
-- The parts and their files:
-- Prelude, Words, Std: shared names, numbers below 2^64 and 2^32, std::vector and std::unordered_map.
-- Result: how code ends; MEMOIR_ASSERT (runtime/include/internal.h) is `assert_failed`, an exception
-- `thrown`, undefined behaviour `undefined`.
-- Types: runtime/include/types.h and runtime/src/detail/types.cpp. A type object is a description at
-- an address; `Registry` holds them with the tables that keep them unique.
-- Objects: runtime/include/objects.h and runtime/src/detail/objects.cpp. `Runtime` is the registry and
-- the objects by address; `Cmd` is code that reads and changes it, or does not end well.
-- Init: runtime/src/detail/elements.cpp and the constructors. Struct, Tensor, Assoc, Sequence,
-- Collection: the classes of runtime/src/detail/objects.cpp and runtime/src/detail/collections.cpp;
-- the classes of the same virtual functions meet in Collection, and `free` in Collection/Free.
-- Allocation: runtime/src/allocation.cpp, runtime/src/deletion.cpp, runtime/src/type_checking.cpp.
-- Interface: runtime/src/type.cpp.
-- Ssa: runtime/src/ssa_operations.cpp, whose functions return new collections, with associative arrays
-- in Ssa/Keyed. Mut: runtime/src/mut_operations.cpp, whose functions change the given one.
-- Access: runtime/src/ssa_access.cpp and runtime/src/mut_access.cpp; the macros over the types of
-- runtime/include/types.def are functions of the integer type or of two conversions.
-- Backend/Vector: runtime/backend/vector/vector.h, a vector as `_front`, `_back` and a list of cells.
-- Backend/Hashtable: runtime/backend/hashtable/hashtable.h, the tables by linear probing, over the
-- interface Backend/Entries of what an entry is; its instance for pointer keys is Backend/Pointers;
-- the tables for nested values are in Backend/Nesting.
-- What a vector holds is the list of its cells between `_front` and `_back`; what a table holds is the
-- map of its entries in use, and a probe is a path over entries in use for other keys.
-- Graph: compiler/memoir/support/Graph.hpp, with the nodes and edges that graph_lite keeps as a
-- parameter; Graph/Walks says what its orders promise. Fuel bounds the rounds of the traversals and the
-- depth of the sort, with theorems on how much is enough.
-- Layout: compiler/memoir/lowering/TypeLayout.hpp on the types of Ir; Layout/Placed and Layout/Fields
-- follow the packing of fields, Layout/Apart that of bit fields, Layout/Structs the layout of a struct, Layout/Recursive the recursion.
-- TypeAnalysis: compiler/memoir/analysis/src/TypeAnalysis.cpp; the program that it looks at is a
-- parameter. TypeAnalysis/Visits and TypeAnalysis/Calls are the visits, TypeAnalysis/Queries the
-- recursion, on fuel, since a query need not end; TypeAnalysis/Memory and TypeAnalysis/Again follow the
-- table of types, TypeAnalysis/Chains the instructions that forward a type, TypeAnalysis/Doubt the values
-- that get no type.
-- Strings: runtime/api/c/src/mstring.cpp, with theorems in Strings/Read.
-- Ir: compiler/memoir/ir/Types.hpp and compiler/memoir/ir/src/Types.cpp, the types of the compiler and
-- their tables, in Ir/Unique and Ir/Statics, and calls one after another in Ir/Again.
-- Examples: a small state on which the theorems are tried.
--
-- How the state corresponds to the code. A pointer is a number, NULL is 0, and `new` takes the next
-- number; an object of a class is a constructor of `Object`. Elements and fields are `uint64_t`, an
-- element that is an object is its address. A view refers to the allocated sequence that owns the
-- elements, so that sharing is in the model. Iterators are an owner and a position. Arguments behind
-- `...` are a list of values with the C type under which they were passed.
--
-- Bounds and fuel. A vector has at most 2^60 - 1 elements; longer ones throw. The `int` counters of
-- loops may not pass 2^31, and the flat index of a tensor is computed in an `int`, where overflow is
-- undefined. The fuel of Init, of `free` and of `equals` bounds how deep types or objects are nested:
-- Init needs more than twice the depth of types. The fuel of a probe is the number of entries, which is
-- enough where an entry is left; a probe of a full table may go on forever in the code too. The loops on
-- strings run on fuel as well, and more steps than the string is long are enough.
--
-- A deletion takes the object out of the store, also one through a pointer to a base class without a
-- virtual destructor, which C++ leaves undefined. The loop of `TensorType::get` over the dimensions
-- is bounded in the functions that call it, before the tables are searched.
--
-- Not modelled. Memory is never exhausted, and addresses are never used again. The order of iteration
-- of an unordered_map is that of the list. The conversions of floats are parameters. Printing
-- (runtime/src/detail/printer.cpp), the macros and declarations of runtime/api, the wrappers of C++ and
-- LLVM containers in runtime/backend and the rest of compiler/, whose passes call LLVM throughout, are
-- left out.
pub mod Access
pub mod Allocation
pub mod Assoc
pub mod Backend
pub mod Collection
pub mod Examples
pub mod Graph
pub mod Init
pub mod Interface
pub mod Ir
pub mod Layout
pub mod Mut
pub mod Objects
pub mod Prelude
pub mod Result
pub mod Sequence
pub mod Ssa
pub mod Std
pub mod Strings
pub mod Struct
pub mod Tensor
pub mod TypeAnalysis
pub mod Types
pub mod Words
