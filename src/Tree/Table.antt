-- ===== src/Tree/Table.antt =====
-- The tree as a finite map, for the components that keep their records in one: what a lookup
-- returns after an insertion, a write through a node pointer and a deletion. A component first looks
-- a key up and inserts it only if it is missing, so keys are distinct.
pub mod Keys
pub mod Laws
pub mod Count
