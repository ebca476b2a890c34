-- ===== src/Interpreter/Memory.antt =====
-- src/interpreter/memory.rs: the parts of the memory.
pub mod IdMap
pub mod Sizes
pub mod Heap
pub mod Regions
pub mod Mapper
pub mod Store
pub mod Reader
pub mod Allocator
pub mod Growth
