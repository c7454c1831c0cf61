-- ===== src/Tree/Collect.antt =====
-- The traversals of the overflow tree: what `getAllInner`, `getAllData` and
-- `getAllDataWithinRange` collect.
use pimlex_fast.Base.{
  ℕ, zero, suc, ◌-◌, ◌≤◌, ◌<◌, ◌≡◌, refl, List, [], ◌∷◌, ◌++◌, Option, none, some, Bool, false,
  arith, leb, if◌then◌else◌, ◌∙◌, lt→leb, le→leb, le→ltb,
}
use pimlex_fast.Tree.Defs.{
  Node, leaf, inner, Children, nil, cons, is_leaf, key_at, child_bound, lookup, lookup_child,
  help_get_all_inner, get_all_inner_children, get_all_inner, help_get_all_data,
  get_all_data_children, get_all_data, help_get_data_within_range, get_data_within_range_children,
  get_all_data_within_range,
}
use pimlex_fast.Tree.Ordered.{
  contains_children, bound, Ordered, OrderedChildren, Takes, child_bound-Takes, Takes-rest,
}
use pimlex_fast.Tree.Lookup.{lookup_child-contains}

mutual
  unfolding help_get_all_data

  no_data_inner : (l : ℕ) (n : Node) → is_leaf n ≡ false → help_get_all_data n ≡ []
  no_data_inner l (leaf m ks) h = cc
  no_data_inner l (inner m kids) h = no_data_children l kids

  no_data_children : (l : ℕ) (kids : Children) → get_all_data_children kids ≡ []
  no_data_children l nil = refl
  no_data_children l (cons key (leaf m ks) rest) = no_data_children l rest
  no_data_children l (cons key (inner m kids) rest) =
      rw (no_data_inner l (inner m kids) refl) (no_data_children l rest)

-- `getAllData` collects nothing from any tree: it enters only children that are no leaves, and
-- the keys stand in the leaves.
pub get_all_data_empty : (n : Node) → (get_all_data n).1 ≡ []
unfolding get_all_data
get_all_data_empty (leaf l ks) = refl
get_all_data_empty (inner l kids) = no_data_inner l (inner l kids) refl

mutual
  unfolding help_get_data_within_range

  no_range_inner : (b e : ℕ) (n : Node) → is_leaf n ≡ false → help_get_data_within_range b e n ≡ 0
  no_range_inner b e (leaf m ks) h = cc
  no_range_inner b e (inner m kids) h = no_range_children b e kids

  no_range_children : (b e : ℕ) (kids : Children) → get_data_within_range_children b e kids ≡ 0
  no_range_children b e nil = refl
  no_range_children b e (cons key (leaf m ks) rest) = omega (arith, no_range_children b e rest)
  no_range_children b e (cons key (inner m kids) rest) =
      omega (arith, no_range_inner b e (inner m kids) refl, no_range_children b e rest)

-- `getAllDataWithinRange` adds no result from any tree, for the same reason: the offset stays.
pub get_all_data_within_range_none :
    (b e : ℕ) (n : Node) (offset : ℕ) → (get_all_data_within_range b e n offset).1 ≡ offset
unfolding get_all_data_within_range
get_all_data_within_range_none b e (leaf l ks) offset = refl
get_all_data_within_range_none b e (inner l kids) offset =
    omega (arith, no_range_inner b e (inner l kids) refl)

-- The node beside the last of the collected keys that is up to `k`.
abbrev pub last_upto : ℕ → List (ℕ × Node) → Option Node
last_upto k [] = none
last_upto k ((key, node) ∷ rest) = elim (last_upto k rest) [
  | some m ↦ some m
  | none ↦ if leb key k then some node else none
]

-- `lookupFromNode` at that node.
abbrev pub lookup_from : ℕ → Option Node → Option Bool
lookup_from k none = none
lookup_from k (some n) = lookup k n

abbrev or_else : Option Node → Option Node → Option Node
or_else (some m) o = some m
or_else none o = o

last_upto-append :
    (k : ℕ) (xs ys : List (ℕ × Node))
    → last_upto k (xs ++ ys) ≡ or_else (last_upto k ys) (last_upto k xs)
last_upto-append k [] ys = or_none (last_upto k ys)
  where
    or_none : (o : Option Node) → o ≡ or_else o none
    or_none none = refl
    or_none (some m) = refl
last_upto-append k ((key, node) ∷ xs) ys = ground (arith, last_upto-append k xs ys)

mutual
  unfolding help_get_all_inner Ordered

  none_below_node :
      (lo hi k : ℕ) (n : Node)
      → Ordered lo hi n
      → k < lo
      → last_upto k (help_get_all_inner n) ≡ none
  none_below_node lo hi k (leaf l ks) o h = refl
  none_below_node lo hi k (inner l kids) o h = none_below_children lo hi k kids o.2 h

  none_below_children :
      (lo hi k : ℕ) (kids : Children)
      → OrderedChildren lo hi kids
      → k < lo
      → last_upto k (get_all_inner_children kids) ≡ none
  none_below_children lo hi k nil o h = refl
  none_below_children lo hi k (cons key (leaf l ks) rest) o h =
      rw (none_below_children (suc key) hi k rest o.3 (omega arith), lt→leb key k (omega arith))
  none_below_children lo hi k (cons key (inner l kids) rest) o h =
      rw
        (
          last_upto-append k (help_get_all_inner (inner l kids)) (get_all_inner_children rest),
          none_below_children (suc key) hi k rest o.3 (omega arith),
        )
        (none_below_node key (bound hi rest) k (inner l kids) o.2 (omega arith))

-- With the rest of the children before the taken one.
taken_rest :
    (lo hi k key : ℕ) (child : Node) (rest : Children)
    → OrderedChildren lo hi (cons key child rest)
    → Takes 0 k (cons key child rest)
    → last_upto k (get_all_inner_children rest) ≡ none
unfolding help_get_all_inner Ordered
taken_rest lo hi k key child nil o t = refl
taken_rest lo hi k key child (cons key' child' rest) o t =
    none_below_children key' hi k (cons key' child' rest) (omega arith, o.3.1, o.3.2, o.3.3)
      (t.beyond 1 (omega arith) (omega arith))

some_wins : (k : ℕ) (o p : Option Node) {b : Bool} → lookup_from k o ≡ some b → or_else o p ≡ o
some_wins k none p h = cc
some_wins k (some m) p h = refl

module _ (lo hi n k key : ℕ) (rest : Children) where
  -- What the collection of the later children finds is a node that answers.
  later :
      OrderedChildren (suc key) hi rest
      → Takes n k rest
      → lookup_from k (last_upto k (get_all_inner_children rest)) ≡ lookup_child n k rest
      → lookup_from k (last_upto k (get_all_inner_children rest)) ≡ some (contains_children k rest)
  later o t ih = ih ∙ lookup_child-contains (suc key) hi n k rest o t

through_child :
    (lo hi n k : ℕ) (kids : Children)
    → OrderedChildren lo hi kids
    → Takes n k kids
    → lookup_from k (last_upto k (get_all_inner_children kids)) ≡ lookup_child n k kids
unfolding help_get_all_inner Ordered lookup
through_child lo hi n k nil o t = absurd (omega (arith, t.inside))
through_child lo hi zero k (cons key (leaf l ks) rest) o t =
    rw (taken_rest lo hi k key (leaf l ks) rest o t, le→leb key k (t.upto 0 (omega arith)))
through_child lo hi zero k (cons key (inner l kids) rest) o t =
    let c =
      child_bound-Takes key (bound hi rest) k kids o.2.2 (omega (arith, o.2.0))
        (omega (arith, o.2.1, t.upto 0 (omega arith))) in
    rw
      (
        last_upto-append k (get_all_inner_children kids) (get_all_inner_children rest),
        taken_rest lo hi k key (inner l kids) rest o t,
        le→ltb k (key_at kids 0) (omega (arith, o.2.1, t.upto 0 (omega arith))),
      )
      (through_child key (bound hi rest) (child_bound k kids - 1) k kids o.2.2 c.1)
through_child lo hi (suc n) k (cons key (leaf l ks) rest) o t =
    let ih = through_child (suc key) hi n k rest o.3 (Takes-rest t) in
    rw
      (
        last_upto-append k ((key, leaf l ks) ∷ []) (get_all_inner_children rest),
        some_wins k (last_upto k (get_all_inner_children rest))
            (last_upto k ((key, leaf l ks) ∷ [])) (later lo hi n k key rest o.3 (Takes-rest t) ih),
      )
      ih
through_child lo hi (suc n) k (cons key (inner l kids) rest) o t =
    let ih = through_child (suc key) hi n k rest o.3 (Takes-rest t) in
    rw
      (
        last_upto-append k (get_all_inner_children kids) (get_all_inner_children rest),
        some_wins k (last_upto k (get_all_inner_children rest))
            (last_upto k (get_all_inner_children kids))
            (later lo hi n k key rest o.3 (Takes-rest t) ih),
      )
      ih

-- In an ordered tree whose root is split, the leaf beside the last collected key up to `k` is the
-- one for `k`: `lookupFromNode` there answers as `lookup` from the root, for every key from the
-- least one on.
pub get_all_inner-lookup :
    (lo hi k l : ℕ) (kids : Children)
    → Ordered lo hi (inner l kids)
    → lo ≤ k
    → lookup_from k (last_upto k (get_all_inner (inner l kids)).1) ≡ lookup k (inner l kids)
unfolding get_all_inner Ordered lookup
get_all_inner-lookup lo hi k l kids o h =
    let c = child_bound-Takes lo hi k kids o.2 (omega (arith, o.0)) (omega (arith, o.1)) in
    rw (le→ltb k (key_at kids 0) (omega (arith, o.1)))
      (through_child lo hi (child_bound k kids - 1) k kids o.2 c.1)
