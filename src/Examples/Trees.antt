-- ===== src/Examples/Trees.antt =====
-- A full leaf of an overflow tree, and the tree that its split leaves.
use pimlex_fast.Base.{
  ℕ, zero, suc, ◌+◌, ◌≤◌, ◌≡◌, refl, List, [], ◌∷◌, some, true, arith, ◌||◌, ◌==◌,
}
use pimlex_fast.Search.{
  upper_bound, upper_bound_loop, lower_bound, lower_bound_loop, lower_bound_inner,
}
use pimlex_fast.Lock.{release_lock, acquired}
use pimlex_fast.Tree.Defs.{
  Node, Children, leaf, inner, split_children, next_insert_child, modify_child, insert_leaf_node,
  insert_leaf, search_leaf, child_bound, insert, insert_locked, lookup, get_all_inner,
}
use pimlex_fast.Tree.Leaf.{Ascends}
use pimlex_fast.Tree.Ordered.{Ordered, contains}
use pimlex_fast.Tree.Insert.{insert-Ordered, lookup-insert}
use pimlex_fast.Tree.Collect.{last_upto, lookup_from, get_all_inner-lookup}

abbrev count_up : ℕ → ℕ → List ℕ
count_up zero lo = []
count_up (suc n) lo = lo ∷ count_up n (suc lo)

count_up-Ascends : (n lo hi : ℕ) → lo + n ≤ suc hi → Ascends lo hi (count_up n lo)
count_up-Ascends zero lo hi h = tt
count_up-Ascends (suc n) lo hi h =
    (omega arith, omega arith, count_up-Ascends n (suc lo) hi (omega arith))

abbrev full_keys : List ℕ
full_keys = count_up 32 1

abbrev full_leaf : Node
full_leaf = leaf 0 full_keys

full_leaf-Ordered : Ordered 1 100 full_leaf
unfolding Ordered
full_leaf-Ordered = (count_up-Ascends 32 1 100 (omega arith), refl, omega arith)

abbrev grown_children : Children
grown_children =
    modify_child (next_insert_child 40 0 0 full_keys) (insert_leaf_node 40)
      (split_children full_keys)

abbrev grown : Node
grown = inner (release_lock (acquired 0)) grown_children

grown-Ordered : Ordered 1 100 grown
unfolding insert insert_locked
grown-Ordered = insert-Ordered 1 100 40 full_leaf full_leaf-Ordered (omega arith) (omega arith)

insert_run : (insert 40 full_leaf).1 ≡ grown
unfolding insert insert_locked
insert_run = refl

lookup_run : lookup 40 grown ≡ some true
unfolding lookup insert_leaf lower_bound lower_bound_loop lower_bound_inner upper_bound
    upper_bound_loop search_leaf child_bound
lookup_run = refl

lookup-insert_example : lookup 40 (insert 40 full_leaf).1 ≡ some (40 == 40 || contains 40 full_leaf)
lookup-insert_example =
    lookup-insert 40 1 100 40 full_leaf full_leaf-Ordered (omega arith) (omega arith) (omega arith)

insert-Ordered_example : Ordered 1 100 (insert 41 grown).1
insert-Ordered_example = insert-Ordered 1 100 41 grown grown-Ordered (omega arith) (omega arith)

get_all_inner-lookup_example :
    lookup_from 40 (last_upto 40 (get_all_inner grown).1) ≡ lookup 40 grown
get_all_inner-lookup_example =
    get_all_inner-lookup 1 100 40 (release_lock (acquired 0)) grown_children grown-Ordered
      (omega arith)
