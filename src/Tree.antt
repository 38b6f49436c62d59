-- ===== src/Tree.antt =====
-- The red-black tree of red_black_tree.c.
pub mod Destroy
pub mod Order
pub mod Shape
pub mod Sorted
pub mod Balance
pub mod Query
pub mod Traverse
pub mod Insert
pub mod Delete
pub mod Table
