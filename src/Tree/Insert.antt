-- ===== src/Tree/Insert.antt =====
-- `insert` of the overflow tree: order, and the set of keys.
mod Grown
mod Split
use pimlex_fast.Base.{
  ℕ, zero, suc, ◌+◌, ◌-◌, ◌≤◌, ◌<◌, ◌≡◌, refl, List, [], ◌∷◌, Bool, true, false, ◌||◌, arith,
  length, ltb, leb, ◌==◌, le→leb, lt→leb, ==-false, ==_iff, dec_le, ℕ_discrete, Bool-cases, inl,
  inr, ap, sym, ◌∙◌, ◌≢◌, subst, some,
}
use Split.{insert_locked-Ordered, contains-insert_locked, size-insert_locked, Ascends-mem-le}
use pimlex_fast.Tree.Lookup.{lookup-contains}
use pimlex_fast.Tree.Leaf.{mem}
use pimlex_fast.Tree.Defs.{
  lookup, child_num, Node, leaf, inner, Children, nil, cons, keys_of, key_at, child_count,
  child_bound, insert, insert_child,
}
use pimlex_fast.Tree.Ordered.{
  contains, contains_children, size, bound, Ordered, OrderedChildren, Takes, child_bound-Takes,
  Takes-rest, contains-least,
}

keys_of-insert_child :
    (n k : ℕ) (kids : Children) → keys_of (insert_child n k kids).1 ≡ keys_of kids
unfolding insert
keys_of-insert_child n k nil = refl
keys_of-insert_child zero k (cons key child rest) = refl
keys_of-insert_child (suc n) k (cons key child rest) =
    ap (λ ks. key ∷ ks) (keys_of-insert_child n k rest)

bound-insert_child :
    (hi n k : ℕ) (kids : Children) → bound hi (insert_child n k kids).1 ≡ bound hi kids
unfolding insert
bound-insert_child hi n k nil = refl
bound-insert_child hi zero k (cons key child rest) = refl
bound-insert_child hi (suc n) k (cons key child rest) = refl

taken-le :
    (lo hi k key : ℕ) (child : Node) (rest : Children)
    → Takes 0 k (cons key child rest)
    → k ≤ hi
    → k ≤ bound hi rest
taken-le lo hi k key child nil t h = h
taken-le lo hi k key child (cons key' child' rest) t h =
    omega (arith, t.beyond 1 (omega arith) (omega arith))

-- An inner node keeps its keys; what is below its least key stays out.
insert_inner :
    (lo hi k l : ℕ) (kids : Children)
    → Ordered lo hi (inner l kids)
    → k ≢ lo
    → lo ≤ k
    → (insert k (inner l kids)).1 ≡ inner l (insert_child (child_bound k kids - 1) k kids).1
unfolding insert Ordered
insert_inner lo hi k l kids o ne h =
    let t = child_bound-Takes lo hi k kids o.2 (omega (arith, o.0)) (omega (arith, o.1)) in
    rw (
      insert,
      lt→leb k (key_at kids 0) (omega (arith, o.1)),
      ==-false (child_bound k kids) 0 (omega (arith, t.0)),
    )

insert_least :
    (lo hi k l : ℕ) (kids : Children)
    → Ordered lo hi (inner l kids)
    → k ≡ lo
    → (insert k (inner l kids)).1 ≡ inner l kids
unfolding insert Ordered
insert_least lo hi k l kids o e = rw (insert, le→leb k (key_at kids 0) (omega (arith, o.1)))

mutual
  unfolding insert Ordered

  insert_node-Ordered :
      (lo hi k : ℕ) (n : Node) → Ordered lo hi n → lo ≤ k → k ≤ hi → Ordered lo hi (insert k n).1
  insert_node-Ordered lo hi k (leaf l ks) o p q = insert_locked-Ordered lo hi k l p q ks o
  insert_node-Ordered lo hi k (inner l kids) o p q = elim (ℕ_discrete k lo) [
    | yes e ↦ rw (insert_least lo hi k l kids o e) o
    | no ne ↦
        let t = child_bound-Takes lo hi k kids o.2 (omega (arith, o.0)) (omega (arith, o.1)) in
        let same = keys_of-insert_child (child_bound k kids - 1) k kids in
        rw (insert_inner lo hi k l kids o ne p) (
          rw same o.0,
          rw same o.1,
          insert_child-Ordered lo hi (child_bound k kids - 1) k kids o.2 t.1 q,
        )
  ]

  insert_child-Ordered :
      (lo hi n k : ℕ) (kids : Children)
      → OrderedChildren lo hi kids
      → Takes n k kids
      → k ≤ hi
      → OrderedChildren lo hi (insert_child n k kids).1
  insert_child-Ordered lo hi n k nil o t q = tt
  insert_child-Ordered lo hi zero k (cons key child rest) o t q = (
    o.0,
    o.1,
    insert_node-Ordered key (bound hi rest) k child o.2 (t.upto 0 (omega arith))
        (taken-le lo hi k key child rest t q),
    o.3,
  )
  insert_child-Ordered lo hi (suc n) k (cons key child rest) o t q = (
    o.0,
    o.1,
    rw (bound-insert_child hi n k rest) o.2,
    insert_child-Ordered (suc key) hi n k rest o.3 (Takes-rest t) q,
  )

or_left : (a b c : Bool) → ((a || b) || c) ≡ (a || (b || c))
or_left a b c = ground arith

or_swap : (a b c : Bool) → (b || (a || c)) ≡ (a || (b || c))
or_swap a b c = ground arith

or_there : (j k : ℕ) (b : Bool) → (k ≡ j → b ≡ true) → b ≡ (k == j || b)
or_there j k b h = ground (arith)

mutual
  unfolding insert Ordered contains

  contains-insert_node :
      (j lo hi k : ℕ) (n : Node)
      → Ordered lo hi n
      → lo ≤ k
      → k ≤ hi
      → contains j (insert k n).1 ≡ (k == j || contains j n)
  contains-insert_node j lo hi k (leaf l ks) o p q = contains-insert_locked lo hi k l p q j ks o
  contains-insert_node j lo hi k (inner l kids) o p q = elim (ℕ_discrete k lo) [
    | yes e ↦ rw (insert_least lo hi k l kids o e) (
        or_there j k (contains_children j kids) (λ (f : k ≡ j).
          subst (λ t. contains t (inner l kids) ≡ true) (sym e ∙ f)
            (contains-least lo hi (inner l kids) o)))
    | no ne ↦
        let t = child_bound-Takes lo hi k kids o.2 (omega (arith, o.0)) (omega (arith, o.1)) in
        rw (insert_inner lo hi k l kids o ne p)
          (contains-insert_child j lo hi (child_bound k kids - 1) k kids o.2 t.1 q)
  ]

  contains-insert_child :
      (j lo hi n k : ℕ) (kids : Children)
      → OrderedChildren lo hi kids
      → Takes n k kids
      → k ≤ hi
      → contains_children j (insert_child n k kids).1 ≡ (k == j || contains_children j kids)
  contains-insert_child j lo hi n k nil o t q = absurd (omega (arith, t.inside))
  contains-insert_child j lo hi zero k (cons key child rest) o t q =
      rw
        (contains-insert_node j key (bound hi rest) k child o.2 (t.upto 0 (omega arith))
          (taken-le lo hi k key child rest t q))
        (or_left (k == j) (contains j child) (contains_children j rest))
  contains-insert_child j lo hi (suc n) k (cons key child rest) o t q =
      rw (contains-insert_child j (suc key) hi n k rest o.3 (Takes-rest t) q)
        (or_swap (k == j) (contains j child) (contains_children j rest))

-- `insert` of a key within the bounds keeps an ordered tree ordered, splits included.
pub insert-Ordered :
    (lo hi k : ℕ) (n : Node) → Ordered lo hi n → lo ≤ k → k ≤ hi → Ordered lo hi (insert k n).1
insert-Ordered = insert_node-Ordered

-- After `insert` of a key within the bounds, the tree has that key and those it had before, and no
-- other.
pub contains-insert :
    (j lo hi k : ℕ) (n : Node)
    → Ordered lo hi n
    → lo ≤ k
    → k ≤ hi
    → contains j (insert k n).1 ≡ (k == j || contains j n)
contains-insert = contains-insert_node

-- `insert` followed by `lookup`: in an ordered tree, a later lookup of any key from the least one on
-- finds it exactly if it is the inserted key or was there before.
pub lookup-insert :
    (j lo hi k : ℕ) (n : Node)
    → Ordered lo hi n
    → lo ≤ k
    → k ≤ hi
    → lo ≤ j
    → lookup j (insert k n).1 ≡ some (k == j || contains j n)
lookup-insert j lo hi k n o p q r =
    lookup-contains lo hi j (insert k n).1 (insert-Ordered lo hi k n o p q) r
    ∙ ap some (contains-insert j lo hi k n o p q)

-- A key that a full leaf holds above its least key is stored a second time by `insert`: the split
-- tree holds 33 keys, and as a set the same ones as before.
pub insert_duplicate :
    (lo hi k l : ℕ) (ks : List ℕ)
    → Ordered lo hi (leaf l ks)
    → length ks ≡ child_num
    → lo < k
    → mem k ks ≡ true
    → (size (insert k (leaf l ks)).1 ≡ 33)
      × ((j : ℕ) → contains j (insert k (leaf l ks)).1 ≡ contains j (leaf l ks))
unfolding insert contains Ordered
insert_duplicate lo hi k l ks o full above m =
    let fits : k ≤ hi = Ascends-mem-le lo hi k ks o.0 m in
    (
      size-insert_locked lo hi k l above fits ks o full,
      λ j.
          contains-insert_locked lo hi k l (omega arith) fits j ks o
          ∙ sym (or_there j k (mem j ks) (λ (f : k ≡ j). subst (λ t. mem t ks ≡ true) f m)),
    )
