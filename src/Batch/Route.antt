-- ===== src/Batch/Route.antt =====
-- Where the queries of a batch go: each into the send buffer of a DPU that holds its partition.
use mathlib.Core.List.{append_assoc, append-nil}
use pimlex_fast.Base.{
  ℕ, zero, suc, ◌+◌, ◌≤◌, ◌<◌, ◌≡◌, refl, sym, ap, ◌∙◌, arith, List, [], ◌∷◌, ◌++◌, Option, none,
  some, Bool, true, false, length, length-append, get_or, ltb, ◌==◌, if◌then◌else◌, Bool-cases, inl,
  inr, lt→leb, ==_iff, ==-false, ℕ_discrete,
}
use pimlex_fast.Search.Bound.{SortedOn}
use pimlex_fast.Routing.Defs.{DramLevel, search_upper_level, get_start_dpu_id}
use pimlex_fast.Routing.Replicas.{total}
use pimlex_fast.Routing.Partition.{low_bound_at, IsPartition, search_upper_level-routes}
use pimlex_fast.Batch.Defs.{
  max_buffer_size, push, slot_query, slot_queries, clear_send_buffer, slot_insert, slot_retry,
}

abbrev dpu_of : Option (ℕ × List ℕ) → ℕ
dpu_of none = 0
dpu_of (some r) = r.0

-- The DPU that a request goes to.
abbrev pub route : DramLevel → List ℕ → (ℕ → ℕ) → ℕ → ℕ
route level access_num querys r = dpu_of (search_upper_level (querys r) r false access_num level)

-- The cells of the requests from `req` on that go to the DPU `h`, in their order.
abbrev pub cells_for : {A : Type 0} → (ℕ → ℕ) → (ℕ → Bool) → (ℕ → A) → ℕ → ℕ → ℕ → List A
cells_for routes kept cell h zero req = []
cells_for routes kept cell h (suc n) req =
    let rest = cells_for routes kept cell h n (req + 1) in
    if kept req then (if routes req == h then cell req ∷ rest else rest) else rest

push-cells :
    {A : Type 0} (d h : ℕ) (x : A) (buffers : ℕ → List A) (rest : List A)
    → push d x buffers h ++ rest ≡ buffers h ++ (if d == h then x ∷ rest else rest)
push-cells d h x buffers rest = elim (ℕ_discrete h d) [
  | yes e ↦ rw ((==_iff h d).1 e, e, (==_iff d d).1 refl) (append_assoc (buffers d) (x ∷ []) rest)
  | no ne ↦ rw (==-false h d ne, ==-false d h (λ e. ne (sym e))) refl
]

length-push :
    {A : Type 0} (d h : ℕ) (x : A) (buffers : ℕ → List A)
    → length (push d x buffers h) ≤ suc (length (buffers h))
length-push d h x buffers = elim (ℕ_discrete h d) [
  | yes e ↦ rw ((==_iff h d).1 e, e) (omega (arith, length-append (buffers d) (x ∷ [])))
  | no ne ↦ rw (==-false h d ne) (omega arith)
]

module _ {A : Type 0} (level : DramLevel) (access_num : List ℕ) (querys : ℕ → ℕ) (kept : ℕ → Bool)
    (cell : ℕ → A) (routes : ℕ → ℕ) (lo hi : ℕ)
    (found : (r : ℕ)
      → lo ≤ r
      → r < hi
      → kept r ≡ true
      → search_upper_level (querys r) r false access_num level ≡ some (routes r, access_num)) where
  slot_queries-cells :
      (n req : ℕ) (buffers : ℕ → List A)
      → lo ≤ req
      → req + n ≤ hi
      → ((h : ℕ) → length (buffers h) + n ≤ max_buffer_size)
      → (buffers' : ℕ → List A) × (slot_queries level access_num querys kept cell n req buffers
          ≡ some buffers')
        × ((h : ℕ) → buffers' h ≡ buffers h ++ cells_for routes kept cell h n req)
  unfolding slot_queries slot_query
  slot_queries-cells zero req buffers low high room =
      (buffers, refl, λ h. sym (append-nil (buffers h)))
  slot_queries-cells (suc n) req buffers low high room = elim (Bool-cases (kept req)) [
    | inr skip ↦
        let r =
          slot_queries-cells n (req + 1) buffers (omega arith) (omega arith)
            (λ h. omega (arith, room h)) in
        (r.0, rw (slot_queries, slot_query, skip) r.1, λ h. rw skip (r.2 h))
    | inl keep ↦
        let next : ℕ → List A = push (routes req) (cell req) buffers in
        let r =
          slot_queries-cells n (req + 1) next (omega arith) (omega arith)
            (λ h. omega (arith, room h, length-push (routes req) h (cell req) buffers)) in
        (
          r.0,
          rw
              (
                slot_queries,
                slot_query,
                keep,
                found req low (omega arith) keep,
                lt→leb max_buffer_size (length (buffers (routes req)))
                    (omega (arith, room (routes req))),
              )
              r.1,
          λ h. rw keep (
              r.2 h
              ∙ push-cells (routes req) h (cell req) buffers
                  (cells_for routes kept cell h n (req + 1))),
        )
  ]

-- With ascending bounds, a count for every partition and none of them 0, room in every buffer, and no
-- kept key of the `n` requests from `req` on below the first bound, these requests go behind what the buffers hold, each behind the cells of its DPU and in their
-- order; the DPU of each is one that the counts cover, and the map gives it to the key's partition.
pub slot_queries-routes :
    {A : Type 0} (s : DramLevel) (access_num : List ℕ) (querys : ℕ → ℕ) (kept : ℕ → Bool)
    (cell : ℕ → A) (n req : ℕ) (buffers : ℕ → List A)
    → SortedOn (low_bound_at s) 0 (length s.low_bound_key)
    → 0 < length s.low_bound_key
    → length s.nr_replicas_per_partition ≡ length s.low_bound_key
    → ((i : ℕ) → i < length s.low_bound_key → 0 < get_or s.nr_replicas_per_partition i 0)
    → ((r : ℕ) → req ≤ r → r < req + n → kept r ≡ true → low_bound_at s 0 ≤ querys r)
    → ((h : ℕ) → length (buffers h) + n ≤ max_buffer_size)
    → (buffers' : ℕ → List A) × (slot_queries
          (get_start_dpu_id s)
          access_num
          querys
          kept
          cell
          n
          req
          buffers
        ≡ some buffers')
      × ((h : ℕ)
          → buffers' h
            ≡ buffers h
              ++ cells_for (route (get_start_dpu_id s) access_num querys) kept cell h n req)
      × ((r : ℕ)
          → req ≤ r
          → r < req + n
          → kept r ≡ true
          → (p : ℕ) × IsPartition (querys r) p s
            × (route (get_start_dpu_id s) access_num querys r < total s.nr_replicas_per_partition)
            × ((get_start_dpu_id s).dpu_id_to_partition
                  (route (get_start_dpu_id s) access_num querys r)
                ≡ p))
slot_queries-routes s access_num querys kept cell n req buffers sorted any same pos low room =
    let to = λ (r : ℕ) (a : req ≤ r) (b : r < req + n) (k : kept r ≡ true).
      search_upper_level-routes (querys r) r false access_num s sorted any (low r a b k) same pos in
    let level : DramLevel = get_start_dpu_id s in
    let same_dpu =
      λ (r : ℕ) (a : req ≤ r) (b : r < req + n) (k : kept r ≡ true). ap dpu_of (to r a b k).3 in
    let r =
      slot_queries-cells level access_num querys kept cell (route level access_num querys) req
        (req + n) (λ r a b k. rw (to r a b k).3 refl) n req buffers (omega arith) (omega arith)
        room in
    (
      r.0,
      r.1,
      r.2,
      λ r a b k. (
        (to r a b k).0,
        (to r a b k).2,
        rw (same_dpu r a b k) (to r a b k).4,
        rw (same_dpu r a b k) (to r a b k).5,
      ),
    )

-- Every request that is kept has a DPU on the level.
abbrev pub IsServed : List ℕ → ℕ → (ℕ → ℕ) → DramLevel → Type 0
IsServed access_num min_key querys level =
    (r : ℕ)
    → ltb min_key (querys r) ≡ true
    → (d : ℕ) × (search_upper_level (querys r) r false access_num level ≡ some (d, access_num))

abbrev pub AllServed : List ℕ → ℕ → (ℕ → ℕ) → List DramLevel → Type 0
AllServed access_num min_key querys [] = Unit
AllServed access_num min_key querys (level ∷ levels) =
    IsServed access_num min_key querys level × AllServed access_num min_key querys levels

slot_insert-returns :
    (level : DramLevel) (access_num : List ℕ) (min_key : ℕ) (querys : ℕ → ℕ) (n req : ℕ)
    → IsServed access_num min_key querys level
    → n ≤ max_buffer_size
    → (slotted : ℕ → List ℕ) × (slot_insert level access_num min_key querys n req (λ h. [])
        ≡ some slotted)
unfolding slot_insert
slot_insert-returns level access_num min_key querys n req served h =
    let r =
      slot_queries-cells level access_num querys (λ r. ltb min_key (querys r)) querys
        (route level access_num querys) req (req + n) (λ r a b k. rw (served r k).1 refl) n req
        (λ h. []) (omega arith) (omega arith) (λ i. omega (arith, h)) in
    (r.0, r.1)

-- However often a merge overtakes the insertion loop, the buffers hold in the end what a single run
-- on the last level leaves, when no run has more requests than a buffer has cells and each level has a
-- DPU for every request.
slot_retry-last :
    (changed : List DramLevel) (level : DramLevel) (access_num : List ℕ) (min_key : ℕ)
    (querys : ℕ → ℕ) (n req : ℕ)
    → AllServed access_num min_key querys changed
    → n ≤ max_buffer_size
    → slot_retry changed level access_num min_key querys n req (λ h. [])
      ≡ slot_insert level access_num min_key querys n req (λ h. [])
unfolding slot_retry clear_send_buffer
slot_retry-last [] level access_num min_key querys n req served h = refl
slot_retry-last (old ∷ changed) level access_num min_key querys n req served h =
    let r = slot_insert-returns old access_num min_key querys n req served.0 h in
    rw (slot_retry, r.1) (slot_retry-last changed level access_num min_key querys n req served.1 h)
