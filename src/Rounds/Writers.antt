-- ===== src/Rounds/Writers.antt =====
-- `thread_in_write` counts the threads in `insert_payload`.
use mathlib.Core.Logic.{ite}
use pimlex_fast.Base.{
  ℕ, zero, suc, ◌+◌, ◌≤◌, ◌<◌, ◌≡◌, refl, ap, Bool, true, false, if◌then◌else◌, arith, ℕ_discrete,
}
use pimlex_fast.Batch.Defs.{thread_num}
use pimlex_fast.Rounds.Defs.{
  Shared, Place, Access, moved, Reachable, begun, turn, merging, writing, enter, leave, drained,
}

abbrev pub writes : Place → Bool
writes (writing routed) = true
writes _ = false

abbrev pub one_if : Bool → ℕ
one_if b = if b then 1 else 0

-- The threads below `n` in `insert_payload`.
abbrev pub writers : ℕ → (ℕ → Place) → ℕ
writers zero places = 0
writers (suc n) places = writers n places + one_if (writes (places n))

writers-moved_behind :
    (n i : ℕ) (places : ℕ → Place) (p : Place)
    → n ≤ i
    → writers n (moved places i p) ≡ writers n places
writers-moved_behind zero i places p h = refl
writers-moved_behind (suc n) i places p h =
    let rest = writers-moved_behind n i places p (omega arith) in
    elim (ℕ_discrete i n)
      as (λ x.
        writers n (moved places i p) + one_if (writes (ite x p (places n)))
        ≡ writers n places + one_if (writes (places n))) [
          | yes e ↦ absurd (omega (arith, e))
          | no ne ↦ omega (arith, rest)
        ]

writers-moved :
    (n i : ℕ) (places : ℕ → Place) (p : Place)
    → i < n
    → writers n (moved places i p) + one_if (writes (places i))
      ≡ writers n places + one_if (writes p)
writers-moved zero i places p h = absurd (omega arith)
writers-moved (suc n) i places p h =
    elim (ℕ_discrete i n)
      as (λ x.
        writers n (moved places i p)
          + one_if (writes (ite x p (places n)))
          + one_if (writes (places i))
        ≡ writers n places + one_if (writes (places n)) + one_if (writes p)) [
          | yes e ↦ omega (
            arith,
            writers-moved_behind n i places p (omega (arith, e)),
            ap (λ x. one_if (writes (places x))) e,
          )
          | no ne ↦ omega (arith, writers-moved n i places p (omega (arith, ne)))
        ]

writes-writers :
    (n i : ℕ) (places : ℕ → Place) → i < n → one_if (writes (places i)) ≤ writers n places
writes-writers zero i places h = absurd (omega arith)
writes-writers (suc n) i places h = elim (ℕ_discrete i n) [
  | yes e ↦ rw e (omega arith)
  | no ne ↦ omega (arith, writes-writers n i places (omega (arith, ne)))
]

Access-thread_in_write :
    {per_round_ops : ℕ} {over : ℕ → ℕ → Bool} {g h : Shared} {p p' : Place}
    → Access per_round_ops over g p h p'
    → one_if (writes p) ≤ g.thread_in_write
    → h.thread_in_write + one_if (writes p) ≡ g.thread_in_write + one_if (writes p')
Access-thread_in_write enter l = omega arith
Access-thread_in_write leave l = omega (arith, l)
Access-thread_in_write mv l = omega arith

-- In every reachable state of an insertion run `thread_in_write` is the number of threads between its
-- increment and its decrement.
pub thread_in_write_lem :
    {per_round_ops size : ℕ} {over : ℕ → ℕ → Bool} {g : Shared} {places : ℕ → Place}
    → Reachable per_round_ops over size g places
    → g.thread_in_write ≡ writers thread_num places
thread_in_write_lem begun = refl
thread_in_write_lem (turn {places = places} {p = p} i r l mv) =
    let before = thread_in_write_lem r in
    let room = writes-writers thread_num i places l in
    omega (
      arith,
      before,
      Access-thread_in_write mv (omega (arith, room, before)),
      writers-moved thread_num i places p l,
    )

Access-drained :
    {per_round_ops : ℕ} {over : ℕ → ℕ → Bool} {g h : Shared} {p : Place}
    → Access per_round_ops over g p h merging
    → g.thread_in_write ≡ 0
Access-drained (drained e) = e

-- When the wait of a thread before its merge ends, in a reachable state, no thread is in
-- `insert_payload`.
pub drained-writes :
    {per_round_ops size : ℕ} {over : ℕ → ℕ → Bool} {g h : Shared} {places : ℕ → Place}
    → Reachable per_round_ops over size g places
    → (j : ℕ) → Access per_round_ops over g (places j) h merging
    → (i : ℕ) → i < thread_num
    → writes (places i) ≡ false
drained-writes {places = places} r j mv i l =
    let none_there = writes-writers thread_num i places l in
    ground (arith, none_there, thread_in_write_lem r, Access-drained mv)
