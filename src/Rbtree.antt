-- ===== src/Rbtree.antt =====
-- src/rbtree.c and src/rbtree.h: the intrusive red-black tree. Its nodes are linked by pointers in
-- a store, and each operation reads and writes the links as the C code does.
pub mod Nodes
pub mod Search
pub mod Update
pub mod Removal
pub mod Shape
pub mod Find
pub mod Writes
pub mod Replace
pub mod Rotate
pub mod Turn
pub mod Focus
pub mod Repair
pub mod Rounds
pub mod Fixup
pub mod Descent
pub mod Sorted
pub mod Insert
pub mod Insertion
pub mod Lookup
pub mod Balance
mod Tests
pub mod Walk
pub mod Order
