-- ===== src/HugeAddressMap/Tree/Shape.antt =====
-- Adding a node and removing one: the order, the heap and `longest_` are kept, and the set of
-- huge pages changes by the node's own.
pub mod Split
pub mod Merge
