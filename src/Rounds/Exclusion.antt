-- ===== src/Rounds/Exclusion.antt =====
-- At most one thread merges, and a round passes its check only with requests slotted on the index.
use pimlex_fast.Base.{
  ℕ, ◌+◌, ◌^◌, ◌≤◌, ◌<◌, ◌≡◌, ◌≢◌, refl, Bool, true, false, arith, ℕ_discrete, Bool-cases, inl, inr,
}
use mathlib.Core.Logic.{ite}
use pimlex_fast.Lock.{release_lock, test_lock_version_change}
use pimlex_fast.Rounds.Defs.{
  Shared, Place, Access, moved, Reachable, begun, turn, slotting, trying, owning, draining, merging,
  merged, stored, leaving, storing, exchanged, store_lock, merge, test_free,
}

-- From the compare-exchange of `try_get_lock` to the store of `release_lock`.
abbrev pub owns : Place → Bool
owns owning = true
owns draining = true
owns merging = true
owns merged = true
owns stored = true
owns leaving = true
owns (storing v) = true
owns _ = false

-- What a place says of the word of the merge lock and of the number of merges.
abbrev pub Says : ℕ → ℕ → Place → Type 0
Says w n (slotting version routed) = (version ≡ routed) × (routed ≤ n)
Says w n (trying old) = old < 2 ^ 31
Says w n owning = w ≡ n + 2 ^ 31
Says w n draining = w ≡ n + 2 ^ 31
Says w n merging = w ≡ n + 2 ^ 31
Says w n merged = (w + 1 ≡ n + 2 ^ 31) × (0 < n)
Says w n stored = (w + 1 ≡ n + 2 ^ 31) × (0 < n)
Says w n leaving = (w + 1 ≡ n + 2 ^ 31) × (0 < n)
Says w n (storing v) = (w + 1 ≡ n + 2 ^ 31) × (0 < n) × (v ≡ w)
Says w n _ = Unit

pub record Kept (g : Shared) (places : ℕ → Place) : Type 0 where
  pub fits : g.merge_lock_ < 2 ^ 32
  pub free : g.merge_lock_ < 2 ^ 31 → g.merge_lock_ ≡ g.generation
  pub own : (i : ℕ) → Says g.merge_lock_ g.generation (places i)
  pub unique : (i j : ℕ) → owns (places i) ≡ true → owns (places j) ≡ true → i ≡ j

Says-later : (w w' n n' : ℕ) (q : Place) → n ≤ n' → owns q ≡ false → Says w n q → Says w' n' q
Says-later w w' n n' q le free s = ground (arith, le, free, s)

owns-set : (w n : ℕ) (q : Place) → owns q ≡ true → Says w n q → 2 ^ 31 ≤ w
owns-set w n q o s = ground (arith, o, s)

module _ {per_round_ops : ℕ} {over : ℕ → ℕ → Bool} {g : Shared} where
  -- What the new place of the thread that moves says.
  Access-Says :
      {h : Shared} {p p' : Place}
      → Access per_round_ops over g p h p'
      → Says g.merge_lock_ g.generation p
      → g.merge_lock_ < 2 ^ 32
      → (g.merge_lock_ < 2 ^ 31 → g.merge_lock_ ≡ g.generation)
      → Says h.merge_lock_ h.generation p'
  unfolding release_lock
  Access-Says (exchanged e) s fits free = omega (arith, e, s, free)
  Access-Says (test_free e) s fits free = (free (ground (arith, e, fits)), omega arith)
  Access-Says mv s fits free = ground arith

  Access-fits :
      {h : Shared} {p p' : Place}
      → Access per_round_ops over g p h p'
      → Says g.merge_lock_ g.generation p
      → g.merge_lock_ < 2 ^ 32
      → h.merge_lock_ < 2 ^ 32
  unfolding release_lock
  Access-fits (exchanged e) s fits = omega (arith, s)
  Access-fits mv s fits = omega (arith, fits)

  Access-free :
      {h : Shared} {p p' : Place}
      → Access per_round_ops over g p h p'
      → Says g.merge_lock_ g.generation p
      → g.merge_lock_ < 2 ^ 32
      → (g.merge_lock_ < 2 ^ 31 → g.merge_lock_ ≡ g.generation)
      → h.generation < 2 ^ 31
      → h.merge_lock_ < 2 ^ 31
      → h.merge_lock_ ≡ h.generation
  unfolding release_lock
  Access-free (exchanged e) s fits free few less = absurd (omega (arith, less))
  Access-free mv s fits free few less = ground arith

  Access-grows :
      {h : Shared} {p p' : Place} → Access per_round_ops over g p h p' → g.generation ≤ h.generation
  Access-grows (merge size) = omega arith
  Access-grows mv = omega arith

  -- A thread that owns the lock hinders the others.
  Access-other :
      {h : Shared} {p p' : Place} (q : Place)
      → Access per_round_ops over g p h p'
      → Says g.merge_lock_ g.generation p
      → Says g.merge_lock_ g.generation q
      → (owns p ≡ true → owns q ≡ false)
      → Says h.merge_lock_ h.generation q
  Access-other q (exchanged e) s t alone = elim (Bool-cases (owns q)) [
    | inl o ↦ absurd (omega (arith, owns-set _ _ q o t, e, s))
    | inr f ↦ Says-later _ _ _ _ q (omega arith) f t
  ]
  Access-other q (merge size) s t alone = Says-later _ _ _ _ q (omega arith) (alone refl) t
  Access-other q store_lock s t alone = Says-later _ _ _ _ q (omega arith) (alone refl) t
  Access-other q mv s t alone = t

  -- Who owns the lock afterwards owned it, or has found it free.
  Access-owns :
      {h : Shared} {p p' : Place}
      → Access per_round_ops over g p h p'
      → Says g.merge_lock_ g.generation p
      → owns p' ≡ true
      → owns p ≡ false
      → g.merge_lock_ < 2 ^ 31
  Access-owns (exchanged e) s o f = omega (arith, e, s)
  Access-owns mv s o f = ground arith

module _ {per_round_ops : ℕ} {over : ℕ → ℕ → Bool} {g h : Shared} {places : ℕ → Place} {p : Place}
    (i : ℕ) (inv : Kept g places) (mv : Access per_round_ops over g (places i) h p) where
  moved-own : (j : ℕ) → Says h.merge_lock_ h.generation (moved places i p j)
  moved-own j =
      elim (ℕ_discrete i j) as (λ x. Says h.merge_lock_ h.generation (ite x p (places j))) [
        | yes e ↦ Access-Says mv (inv.own i) inv.fits inv.free
        | no ne ↦ Access-other (places j) mv (inv.own i) (inv.own j) (λ o.
            elim (Bool-cases (owns (places j))) [
              | inl o' ↦ absurd (ne (inv.unique i j o o'))
              | inr f ↦ f
            ])
      ]

  -- No other thread owns the lock when the one that moves owns it afterwards.
  moved-alone : owns p ≡ true → (j : ℕ) → owns (places j) ≡ true → i ≡ j
  moved-alone o j o' = elim (Bool-cases (owns (places i))) [
    | inl was ↦ inv.unique i j was o'
    | inr not ↦
        absurd
          (omega (arith, Access-owns mv (inv.own i) o not, owns-set _ _ (places j) o' (inv.own j)))
  ]

  moved_unique :
      (a b : ℕ) → owns (moved places i p a) ≡ true → owns (moved places i p b) ≡ true → a ≡ b
  moved_unique a b = by_places (ℕ_discrete i a) (ℕ_discrete i b)
    where
      by_places :
          (x : Dec (i ≡ a)) (y : Dec (i ≡ b))
          → owns (ite x p (places a)) ≡ true
          → owns (ite y p (places b)) ≡ true
          → a ≡ b
      by_places (yes e) (yes f) ha hb = cc
      by_places (yes e) (no _) ha hb = omega (arith, e, moved-alone ha b hb)
      by_places (no _) (yes f) ha hb = omega (arith, f, moved-alone hb a ha)
      by_places (no _) (no _) ha hb = inv.unique a b ha hb

  moved-Kept : h.generation < 2 ^ 31 → Kept h (moved places i p)
  moved-Kept few = record {
    fits = Access-fits mv (inv.own i) inv.fits;
    free = Access-free mv (inv.own i) inv.fits inv.free few;
    own = moved-own;
    unique = moved_unique;
  }

pub Reachable-Kept :
    {per_round_ops size : ℕ} {over : ℕ → ℕ → Bool} {g : Shared} {places : ℕ → Place}
    → Reachable per_round_ops over size g places
    → g.generation < 2 ^ 31
    → Kept g places
Reachable-Kept begun few = record {
  fits = omega arith;
  free = λ l. refl;
  own = λ i. tt;
  unique = λ i j h k. cc;
}
Reachable-Kept (turn i r l mv) few =
    moved-Kept i (Reachable-Kept r (omega (arith, few, Access-grows mv))) mv few

-- In every reachable state of an insertion run, before the 2^31st merge, when a thread is between the
-- exchange that takes the merge lock and the store that releases it, no other thread is.
pub merge_exclusion :
    {per_round_ops size : ℕ} {over : ℕ → ℕ → Bool} {g : Shared} {places : ℕ → Place}
    → Reachable per_round_ops over size g places
    → g.generation < 2 ^ 31
    → (i j : ℕ) → i ≢ j
    → owns (places i) ≡ true
    → owns (places j) ≡ false
merge_exclusion {places = places} r few i j ne o = elim (Bool-cases (owns (places j))) [
  | inl o' ↦ absurd (ne ((Reachable-Kept r few).unique i j o o'))
  | inr f ↦ f
]

-- In every reachable state before the 2^31st merge: a thread whose test of the version finds no change
-- has begun to slot its requests on the index that is there, and no thread owns the merge lock.
pub unchanged-current :
    {per_round_ops size : ℕ} {over : ℕ → ℕ → Bool} {g : Shared} {places : ℕ → Place}
    → Reachable per_round_ops over size g places
    → g.generation < 2 ^ 31
    → (i version routed : ℕ) → places i ≡ slotting version routed
    → test_lock_version_change g.merge_lock_ version ≡ false
    → (routed ≡ g.generation) × ((j : ℕ) → owns (places j) ≡ false)
unfolding test_lock_version_change
unchanged-current {g = g} {places = places} r few i version routed e same =
    let inv = Reachable-Kept r few in
    let says : Says g.merge_lock_ g.generation (slotting version routed) = rw e at (inv.own i) in
    let found : g.merge_lock_ ≡ version = ground (arith, same) in
    let less : g.merge_lock_ < 2 ^ 31 = omega (arith, found, says, few) in
    (
      omega (arith, inv.free less, found, says),
      λ j. elim (Bool-cases (owns (places j))) [
        | inl o ↦ absurd (omega (arith, owns-set _ _ (places j) o (inv.own j), less))
        | inr f ↦ f
      ],
    )
