-- ===== src/Tree/Defs.antt =====
-- The data and the operations of `OptNodeBase` and `OptBTree`.
use pimlex_fast.Base.{
  ℕ, zero, suc, ◌+◌, ◌-◌, List, [], ◌∷◌, ◌++◌, Option, none, some, Bool, true, false, ◌&&◌, length,
  get_or, insert_at, ltb, leb, ◌==◌, if◌then◌else◌,
}
use pimlex_fast.Search.{lower_bound, lower_bound_inner}
use pimlex_fast.Lock.{acquired, release_lock}

abbrev pub child_num : ℕ
child_num = 32

mutual
  pub data Node : Type 0 where
    leaf : (nodelock : ℕ) → List ℕ → Node
    inner : (nodelock : ℕ) → Children → Node

  pub data Children : Type 0 where
    nil : Children
    cons : ℕ → Node → Children → Children

abbrev pub keys_of : Children → List ℕ
keys_of nil = []
keys_of (cons key child rest) = key ∷ keys_of rest

abbrev pub key_at : Children → ℕ → ℕ
key_at kids i = get_or (keys_of kids) i 0

abbrev pub child_count : Children → ℕ
child_count kids = length (keys_of kids)

-- `lowerBoundInner` of an inner node.
unfoldable pub child_bound : ℕ → Children → ℕ
child_bound k kids = lower_bound_inner (key_at kids) k (child_count kids)

-- `insertLeaf` on the keys of a leaf: the result, and the keys.
unfoldable pub insert_leaf : ℕ → List ℕ → Bool × List ℕ
insert_leaf k ks =
    if length ks == 0
    then (true, k ∷ [])
    else (let pos = lower_bound (λ i. get_or ks i 0) k (length ks) in
        if ltb pos (length ks) && (get_or ks pos 0 == k)
        then (false, ks)
        else (true, insert_at pos k ks))

-- `searchLeaf`: whether the key is there. The payload is not read.
unfoldable pub search_leaf : ℕ → List ℕ → Bool
search_leaf k ks =
    if length ks == 0
    then false
    else (let pos = lower_bound (λ i. get_or ks i 0) k (length ks) in
        ltb pos (length ks) && (get_or ks pos 0 == k))

-- A full leaf becomes an inner node: every key gets a leaf of its own.
abbrev pub split_children : List ℕ → Children
split_children [] = nil
split_children (k ∷ ks) = cons k (leaf 0 (k ∷ [])) (split_children ks)

-- The loop's `if(k > node->keys[i]) nextinsertchild_id = i`, from index `i` on.
abbrev pub next_insert_child : ℕ → ℕ → ℕ → List ℕ → ℕ
next_insert_child k i id [] = id
next_insert_child k i id (x ∷ xs) = next_insert_child k (i + 1) (if ltb x k then i else id) xs

abbrev pub insert_leaf_node : ℕ → Node → Node
insert_leaf_node k (leaf l ks) = leaf l (insert_leaf k ks).1
insert_leaf_node k (inner l kids) = inner l kids

abbrev pub modify_child : ℕ → (Node → Node) → Children → Children
modify_child n f nil = nil
modify_child zero f (cons key child rest) = cons key (f child) rest
modify_child (suc n) f (cons key child rest) = cons key child (modify_child n f rest)

-- The locked part of `insert` on a leaf: the split of a full one, or `insertLeaf`.
unfoldable pub insert_locked : ℕ → ℕ → List ℕ → Node
insert_locked k l ks =
    if length ks == child_num
    then (if ltb (get_or ks 0 0) k
        then inner (release_lock (acquired l))
            (modify_child (next_insert_child k 0 0 ks) (insert_leaf_node k) (split_children ks))
        else inner (release_lock (acquired l)) (split_children ks))
    else leaf (release_lock (acquired l)) (insert_leaf k ks).1

unfoldable mutual
  unfolding insert_locked

  -- `insert` and `insertFromNode`: the result, and the tree.
  pub insert : ℕ → Node → Bool × Node
  insert k (leaf l ks) = (true, insert_locked k l ks)
  insert k (inner l kids) =
      let below = insert_child (child_bound k kids - 1) k kids in
      if leb k (key_at kids 0)
      then (false, inner l kids)
      else (if child_bound k kids == 0 then (false, inner l kids) else (below.0, inner l below.1))

  pub insert_child : ℕ → ℕ → Children → Bool × Children
  insert_child n k nil = (false, nil)
  insert_child zero k (cons key child rest) =
      let below = insert k child in (below.0, cons key below.1 rest)
  insert_child (suc n) k (cons key child rest) =
      let below = insert_child n k rest in (below.0, cons key child below.1)

unfoldable mutual
  unfolding search_leaf

  -- `lookup` and `lookupFromNode`: `none` is the descent through `smallnode`.
  pub lookup : ℕ → Node → Option Bool
  lookup k (leaf l ks) = some (search_leaf k ks)
  lookup k (inner l kids) =
      let below = lookup_child (child_bound k kids - 1) k kids in
      if ltb k (key_at kids 0) then none else below

  pub lookup_child : ℕ → ℕ → Children → Option Bool
  lookup_child n k nil = none
  lookup_child zero k (cons key child rest) = lookup k child
  lookup_child (suc n) k (cons key child rest) = lookup_child n k rest

unfoldable mutual
  unfolding search_leaf

  -- `update` descends as `lookup` does. `updateLeaf` stores only the payload's address, so the keys
  -- stay; the leaf's lock word is bumped.
  pub update : ℕ → Node → Option (Bool × Node)
  update k (leaf l ks) = some (search_leaf k ks, leaf (release_lock (acquired l)) ks)
  update k (inner l kids) =
      let below = update_child (child_bound k kids - 1) k kids in
      if ltb k (key_at kids 0)
      then none
      else elim below [ none ↦ none | some (found, kids') ↦ some (found, inner l kids') ]

  pub update_child : ℕ → ℕ → Children → Option (Bool × Children)
  update_child n k nil = none
  update_child zero k (cons key child rest) =
      let below = update k child in
      elim below [ none ↦ none | some (found, child') ↦ some (found, cons key child' rest) ]
  update_child (suc n) k (cons key child rest) =
      let below = update_child n k rest in
      elim below [ none ↦ none | some (found, rest') ↦ some (found, cons key child rest') ]

-- `new OptNodeBase()`: the root of a new tree, and of a cleared one.
unfoldable pub clear : Node
clear = leaf 0 []

abbrev pub is_leaf : Node → Bool
is_leaf (leaf l ks) = true
is_leaf (inner l kids) = false

unfoldable mutual
  -- `helpGetAllInner`: the leaves with the keys that stand beside them.
  pub help_get_all_inner : Node → List (ℕ × Node)
  help_get_all_inner (leaf l ks) = []
  help_get_all_inner (inner l kids) = get_all_inner_children kids

  pub get_all_inner_children : Children → List (ℕ × Node)
  get_all_inner_children nil = []
  get_all_inner_children (cons key child rest) =
      (if is_leaf child then (key, child) ∷ [] else help_get_all_inner child)
      ++ get_all_inner_children rest

unfoldable pub get_all_inner : Node → Bool × List (ℕ × Node)
unfolding help_get_all_inner
get_all_inner (leaf l ks) = (false, [])
get_all_inner (inner l kids) = (true, help_get_all_inner (inner l kids))

unfoldable mutual
  -- `helpGetAllData`
  pub help_get_all_data : Node → List ℕ
  help_get_all_data (leaf l ks) = ks
  help_get_all_data (inner l kids) = get_all_data_children kids

  pub get_all_data_children : Children → List ℕ
  get_all_data_children nil = []
  get_all_data_children (cons key child rest) =
      (if is_leaf child then [] else help_get_all_data child) ++ get_all_data_children rest

unfoldable pub get_all_data : Node → Bool × List ℕ
unfolding help_get_all_data
get_all_data (leaf l ks) = (false, [])
get_all_data (inner l kids) = (true, help_get_all_data (inner l kids))

-- The keys that the leaf loop of `helpGetDataWithinRange` writes, from the given offset on.
abbrev pub keys_within : ℕ → ℕ → List ℕ → List ℕ
keys_within begin_key end_key [] = []
keys_within begin_key end_key (k ∷ ks) =
    if leb begin_key k && leb k end_key
    then k ∷ keys_within begin_key end_key ks
    else keys_within begin_key end_key ks

unfoldable mutual
  -- `helpGetDataWithinRange`: how far it moves `offset`. The results go to a vector that is passed
  -- by value, so nothing else of it reaches the caller.
  pub help_get_data_within_range : ℕ → ℕ → Node → ℕ
  help_get_data_within_range begin_key end_key (leaf l ks) =
      length (keys_within begin_key end_key ks)
  help_get_data_within_range begin_key end_key (inner l kids) =
      get_data_within_range_children begin_key end_key kids

  pub get_data_within_range_children : ℕ → ℕ → Children → ℕ
  get_data_within_range_children begin_key end_key nil = 0
  get_data_within_range_children begin_key end_key (cons key child rest) =
      (if is_leaf child then 0 else help_get_data_within_range begin_key end_key child)
      + get_data_within_range_children begin_key end_key rest

-- `getAllDataWithinRange`: the result, and the new `offset`.
unfoldable pub get_all_data_within_range : ℕ → ℕ → Node → ℕ → Bool × ℕ
unfolding help_get_data_within_range
get_all_data_within_range begin_key end_key (leaf l ks) offset = (false, offset)
get_all_data_within_range begin_key end_key (inner l kids) offset =
    (true, offset + help_get_data_within_range begin_key end_key (inner l kids))
