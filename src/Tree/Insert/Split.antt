-- ===== src/Tree/Insert/Split.antt =====
-- The locked part of an insertion: a leaf with room, and the split of a full one.
use pimlex_fast.Base.{
  ℕ, suc, ◌+◌, ◌≤◌, ◌<◌, ◌≡◌, List, [], ◌∷◌, Bool, true, ◌||◌, arith, length, ◌==◌, lt→ltb, le→ltb,
  ==-false, ==_iff, dec_lt, dec_le, ℕ_discrete, ap, ◌∙◌, ◌≢◌,
}
use pimlex_fast.Lock.{acquired, release_lock}
use pimlex_fast.Tree.Defs.{
  leaf, inner, child_num, insert_leaf_node, split_children, modify_child, insert_locked,
}
use pimlex_fast.Tree.Leaf.{
  Ascends, mem, insert_sorted, insert_leaf_lem, insert_sorted-Ascends, mem-insert_sorted,
  length-insert_sorted, Ascends-below, Ascends-above,
}
use pimlex_fast.Tree.Ordered.{contains, size, Ordered}
use pimlex_fast.Tree.Insert.Grown.{
  LastBelow, keys_of-split_children, or-true, contains-split_children, split_children-Ordered,
  last_below, keys_of-grown, grown-Ordered, contains-grown, size-grown,
}

-- The locked part, by its three cases.
with_room :
    (lo hi k l : ℕ) (ks : List ℕ)
    → Ascends lo hi ks
    → length ks ≢ child_num
    → insert_locked k l ks ≡ leaf (release_lock (acquired l)) (insert_sorted k ks)
unfolding insert_locked
with_room lo hi k l ks a ne = rw (==-false (length ks) child_num ne) (
    ap (λ (r : Bool × List ℕ). leaf (release_lock (acquired l)) r.1) (insert_leaf_lem lo hi k ks a))

at_least_key :
    (k l x : ℕ) (xs : List ℕ)
    → length (x ∷ xs) ≡ child_num
    → k ≤ x
    → insert_locked k l (x ∷ xs) ≡ inner (release_lock (acquired l)) (split_children (x ∷ xs))
unfolding insert_locked
at_least_key k l x xs full h =
    rw (insert_locked, (==_iff (length (x ∷ xs)) child_num).1 full, le→ltb x k h)

above_least_key :
    (hi k l x : ℕ) (xs : List ℕ)
    → length (x ∷ xs) ≡ child_num
    → x < k
    → Ascends (suc x) hi xs
    → (n : ℕ) × (insert_locked k l (x ∷ xs)
        ≡ inner
            (release_lock (acquired l))
            (modify_child n (insert_leaf_node k) (split_children (x ∷ xs))))
      × LastBelow k n (x ∷ xs)
unfolding insert_locked
above_least_key hi k l x xs full h a =
    let (n, e, last) = last_below hi k 0 x xs h a in
    (
      n,
      rw (insert_locked, (==_iff (length (x ∷ xs)) child_num).1 full, lt→ltb x k h, e)
          (rw (omega_zero n)),
      last,
    )
  where
    omega_zero : (n : ℕ) → 0 + n ≡ n
    omega_zero n = omega arith

least_at_head :
    (lo hi x : ℕ) (xs : List ℕ) → Ascends lo hi (x ∷ xs) → mem lo (x ∷ xs) ≡ true → x ≡ lo
least_at_head lo hi x xs a m = elim (ℕ_discrete x lo) [
  | yes e ↦ e
  | no ne ↦ ground (arith, Ascends-below (suc x) hi lo xs a.2 (omega (arith, a.0)))
]

module _ (lo hi k l : ℕ) (low : lo ≤ k) (fits : k ≤ hi) where
  with_room-Ordered :
      (ks : List ℕ)
      → Ordered lo hi (leaf l ks)
      → length ks ≢ child_num
      → Ordered lo hi (insert_locked k l ks)
  unfolding Ordered
  with_room-Ordered ks o ne = rw (with_room lo hi k l ks o.0 ne) (
    insert_sorted-Ascends lo hi k lo ks low fits o.0,
    rw (mem-insert_sorted lo k ks, o.1) (or-true (k == lo)),
    omega (arith, length-insert_sorted k ks, o.2),
  )

  -- The locked part of an insertion of a key within the bounds keeps the order.
  pub insert_locked-Ordered :
      (ks : List ℕ) → Ordered lo hi (leaf l ks) → Ordered lo hi (insert_locked k l ks)
  unfolding Ordered
  insert_locked-Ordered [] o = with_room-Ordered [] o (omega arith)
  insert_locked-Ordered (x ∷ xs) o = elim (ℕ_discrete (length (x ∷ xs)) child_num) [
    | no ne ↦ with_room-Ordered (x ∷ xs) o ne
    | yes full ↦ elim (dec_lt x k) [
      | no h ↦ rw (at_least_key k l x xs full (omega arith)) (
        rw (keys_of-split_children xs) full,
        least_at_head lo hi x xs o.0 o.1,
        split_children-Ordered lo hi (x ∷ xs) o.0,
      )
      | yes h ↦
          let (n, e, last) = above_least_key hi k l x xs full h o.0.2 in
          rw e (
            rw (keys_of-grown hi k fits n (x ∷ xs)) full,
            rw (keys_of-grown hi k fits n (x ∷ xs)) (least_at_head lo hi x xs o.0 o.1),
            grown-Ordered hi k fits lo n (x ∷ xs) o.0 last,
          )
    ]
  ]

  -- It adds the key to the keys of the leaf.
  pub contains-insert_locked :
      (j : ℕ) (ks : List ℕ)
      → Ordered lo hi (leaf l ks)
      → contains j (insert_locked k l ks) ≡ (k == j || mem j ks)
  unfolding Ordered contains
  contains-insert_locked j [] o = rw (with_room lo hi k l [] o.0 (omega arith))
  contains-insert_locked j (x ∷ xs) o = elim (ℕ_discrete (length (x ∷ xs)) child_num) [
    | no ne ↦ rw (with_room lo hi k l (x ∷ xs) o.0 ne) (mem-insert_sorted j k (x ∷ xs))
    | yes full ↦ elim (dec_lt x k) [
      | no h ↦
          let e : x ≡ k = omega (arith, least_at_head lo hi x xs o.0 o.1) in
          rw (at_least_key k l x xs full (omega arith), ← e)
            (contains-split_children j (x ∷ xs) ∙ or_twice (x == j) (mem j xs))
      | yes h ↦
          let (n, e, last) = above_least_key hi k l x xs full h o.0.2 in
          rw e (contains-grown hi k fits j n (x ∷ xs) last)
    ]
  ]
    where
      or_twice : (a b : Bool) → (a || b) ≡ (a || (a || b))
      or_twice a b = ground arith

pub Ascends-mem-le : (lo hi k : ℕ) (ks : List ℕ) → Ascends lo hi ks → mem k ks ≡ true → k ≤ hi
Ascends-mem-le lo hi k ks a m = elim (dec_le k hi) [
  | yes h ↦ h
  | no h ↦ ground (arith, Ascends-above lo hi k ks a (omega arith))
]

-- An insertion above the least key into a full leaf adds one stored key, whether or not it is there.
pub size-insert_locked :
    (lo hi k l : ℕ)
    → lo < k
    → k ≤ hi
    → (ks : List ℕ) → Ordered lo hi (leaf l ks)
    → length ks ≡ child_num
    → size (insert_locked k l ks) ≡ 33
unfolding Ordered size
size-insert_locked lo hi k l low fits [] o full = absurd (omega arith)
size-insert_locked lo hi k l low fits (x ∷ xs) o full =
    let h : x < k = omega (arith, least_at_head lo hi x xs o.0 o.1) in
    let (n, e, last) = above_least_key hi k l x xs full h o.0.2 in
    rw e (omega (arith, size-grown hi k fits n (x ∷ xs) last))
