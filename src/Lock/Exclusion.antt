-- ===== src/Lock/Exclusion.antt =====
-- Any number of threads on one `ol_lock`, one shared access at a time, in any order. The accesses
-- are taken as sequentially consistent. A critical section may take any number of other steps: a
-- thread that holds the lock just does not move here.
use pimlex_fast.Base.{ℕ, ◌^◌, ◌≤◌, ◌<◌, ◌≡◌, ◌≢◌, refl, Bool, true, false, arith, ℕ_discrete}
use mathlib.Core.Logic.{ite}
use pimlex_fast.Lock.{is_set, masked, acquired, release_lock}

-- Where a thread stands, with the local variables that are live there.
pub data Pc : Type 0 where
  idle : Pc
  spin : Pc  -- the `while(true)` of `get_lock`
  loaded : (old : ℕ) → Pc  -- before the compare-exchange of `get_lock`
  tried : (old : ℕ) → Pc  -- before the compare-exchange of `try_get_lock`
  holding : Pc  -- the critical section
  releasing : (v : ℕ) → Pc  -- between the load and the store of `release_lock`

-- One access of one thread to the word `w`: the thread's next place, and the word afterwards.
pub data Move (w : ℕ) : Pc → ℕ → Pc → Type 0 where
  get_lock : Move w idle w spin
  spin_set : is_set w ≡ true → Move w spin w spin
  spin_free : is_set w ≡ false → Move w spin w (loaded (masked w))
  cas_win : {old : ℕ} → w ≡ old → Move w (loaded old) (acquired old) holding
  cas_lose : {old : ℕ} → w ≢ old → Move w (loaded old) w spin
  try_set : is_set w ≡ true → Move w idle w idle
  try_free : is_set w ≡ false → Move w idle w (tried (masked w))
  try_win : {old : ℕ} → w ≡ old → Move w (tried old) (acquired old) holding
  try_lose : {old : ℕ} → w ≢ old → Move w (tried old) w idle
  load_release : Move w holding w (releasing w)
  store_release : {v : ℕ} → Move w (releasing v) (release_lock v) idle

abbrev pub update : (ℕ → Pc) → ℕ → Pc → ℕ → Pc
update f i p j = ite (ℕ_discrete i j) p (f j)

pub record System : Type 0 where
  pub lock_ : ℕ
  pub pc : ℕ → Pc

pub data Step (s : System) : System → Type 0 where
  pick :
      (i : ℕ) {w : ℕ} {p : Pc}
      → Move s.lock_ (s.pc i) w p
      → Step s (record { lock_ = w; pc = update s.pc i p })

-- The constructor of `ol_lock` leaves the word 0.
abbrev pub start : System
start = record { lock_ = 0; pc = λ _. Pc.idle }

pub data Reach : System → Type 0 where
  init : Reach start
  next : {s t : System} → Reach s → Step s t → Reach t

-- Between a successful compare-exchange and the store of the release.
abbrev pub holds : Pc → Bool
holds holding = true
holds (releasing _) = true
holds _ = false

-- What a thread's place says of the word.
abbrev pub Fits : ℕ → Pc → Type 0
Fits w (loaded old) = old < 2 ^ 31
Fits w (tried old) = old < 2 ^ 31
Fits w holding = 2 ^ 31 ≤ w
Fits w (releasing v) = (2 ^ 31 ≤ w) × (v ≡ w)
Fits w _ = Unit

pub record Inv (w : ℕ) (pc : ℕ → Pc) : Type 0 where
  pub fits : w < 2 ^ 32
  pub own : (i : ℕ) → Fits w (pc i)
  pub unique : (i j : ℕ) → holds (pc i) ≡ true → holds (pc j) ≡ true → i ≡ j

module _ {w : ℕ} {pc : ℕ → Pc} (inv : Inv w pc) (i : ℕ) where
  Move-fits : {w' : ℕ} {p p' : Pc} → pc i ≡ p → Move w p w' p' → w' < 2 ^ 32
  unfolding release_lock
  Move-fits e get_lock = inv.fits
  Move-fits e mv = omega (arith, inv.fits)

  -- The mover's word is what its place says, so a thread that takes the lock found it free.
  Move-own : {w' : ℕ} {p p' : Pc} → pc i ≡ p → Move w p w' p' → (j : ℕ) → Fits w' (update pc i p' j)
  unfolding release_lock
  Move-own e (cas_win g) j = ground (arith, inv.own i, inv.own j, inv.fits)
  Move-own e (try_win g) j = ground (arith, inv.own i, inv.own j, inv.fits)
  Move-own e mv j = ground (arith, inv.own i, inv.own j, inv.unique i j, inv.fits)

  Move-unique :
      {w' : ℕ} {p p' : Pc}
      → pc i ≡ p
      → Move w p w' p'
      → (a b : ℕ) → holds (update pc i p' a) ≡ true
      → holds (update pc i p' b) ≡ true
      → a ≡ b
  Move-unique e (cas_win g) a b ha hb =
      ground (arith, inv.own i, inv.own a, inv.own b, inv.unique a b)
  Move-unique e (try_win g) a b ha hb =
      ground (arith, inv.own i, inv.own a, inv.own b, inv.unique a b)
  Move-unique e mv a b ha hb = ground (arith, inv.unique a b, inv.unique i a, inv.unique i b)

Step-Inv : {s t : System} → Inv s.lock_ s.pc → Step s t → Inv t.lock_ t.pc
Step-Inv inv (pick i mv) = record {
  fits = Move-fits inv i refl mv;
  own = Move-own inv i refl mv;
  unique = Move-unique inv i refl mv;
}

pub Reach-Inv : {s : System} → Reach s → Inv s.lock_ s.pc
Reach-Inv init = record { fits = omega arith; own = λ i. tt; unique = λ i j h k. cc }
Reach-Inv (next r st) = Step-Inv (Reach-Inv r) st

-- In every reachable state at most one thread is between a successful `get_lock` or `try_get_lock`
-- and the store of its `release_lock`.
pub mutual_exclusion :
    {s : System} → Reach s → (i j : ℕ) → holds (s.pc i) ≡ true → holds (s.pc j) ≡ true → i ≡ j
mutual_exclusion r = (Reach-Inv r).unique

-- While a thread is there, the lock bit is set: every load of `get_lock` and `try_get_lock` by
-- another thread finds it taken.
pub holds-is_set : {s : System} → Reach s → (i : ℕ) → holds (s.pc i) ≡ true → is_set s.lock_ ≡ true
holds-is_set {s} r i h = let inv = Reach-Inv r in ground (arith, inv.own i, inv.fits)
