-- ===== src/Tree.antt =====
-- The overflow tree of support/opt_overflow_tree.h (`OptBTree`).
-- A node owns its children, so a tree is a value: a leaf has its keys, an inner node its children
-- beside their keys. The arrays below `count` are lists, so the count is a length. A leaf's
-- `pointers` are addresses of a local variable of `insertLeaf` that no code reads back, and are left
-- out. `smallnode` is never assigned: a descent through it is a fault.
-- A step of a node runs when its lock is free (`Lock.Exclusion` has the waiting): the word of a leaf
-- goes through one acquire and one release on every insertion and update.
pub mod Defs
pub mod Leaf
pub mod Ordered
pub mod Lookup
pub mod Insert
pub mod Collect
