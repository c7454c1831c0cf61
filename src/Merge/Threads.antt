-- ===== src/Merge/Threads.antt =====
-- The threads of a merge, in any order: the new array holds the merge of the array with all pages.
use pimlex_fast.Base.{
  ℕ, zero, suc, ◌+◌, ◌-◌, ◌≤◌, ◌<◌, ◌≡◌, refl, sym, ap, ◌∙◌, arith, List, [], ◌∷◌, ◌++◌, some,
  length, length-append, get_or, get_or-append_left, get_or-append_right, ◌==◌, if◌then◌else◌, ◌⊎◌,
  inl, inr, dec_lt, dec_le, ℕ_discrete, ==_iff, ==-false,
}
use pimlex_fast.Page.{Entry}
use pimlex_fast.Dpu.Tasklets.{Occurs, here, there}
use pimlex_fast.Host.Index.{Index}
use pimlex_fast.Host.Bound.{IsLoaded}
use pimlex_fast.Merge.Defs.{
  merge_thread_num, num_buf_pages, merge_thread, cur_new_off, new_total_size, store_new,
  merge_threads,
}
use pimlex_fast.Merge.Spec.{old_list, page_list, merge}
use pimlex_fast.Merge.Ranges.{cur_new_off_lem, new_total_size_lem}
use pimlex_fast.Merge.Chains.{IsMergeable, large}
use pimlex_fast.Merge.Parts.{merged, part, merged-split, length-merged}
use pimlex_fast.Merge.Thread.{merge_thread-part}

-- A store changes the positions of its entries only.
store_out :
    (xs : List Entry) (off : ℕ) (new : ℕ → Entry) (j : ℕ)
    → (j < off) ⊎ (off + length xs ≤ j)
    → store_new off xs new j ≡ new j
store_out [] off new j h = refl
store_out (x ∷ xs) off new j h =
    store_out xs (off + 1) (λ i. if i == off then x else new i) j (ground (arith, h))
    ∙ rw (==-false j off (ground (arith, h))) refl

store_in :
    (xs : List Entry) (off : ℕ) (new : ℕ → Entry) (i : ℕ) (e : Entry)
    → i < length xs
    → store_new off xs new (off + i) ≡ get_or xs i e
store_in [] off new i e h = absurd (omega arith)
store_in (x ∷ xs) off new zero e h =
    let z : off + 0 ≡ off = omega arith in
    rw z (
      store_out xs (off + 1) (λ i. if i == off then x else new i) off (inl (omega arith))
      ∙ rw ((==_iff off off).1 refl) refl)
store_in (x ∷ xs) off new (suc i) e h =
    let z : off + suc i ≡ off + 1 + i = omega arith in
    rw z (store_in xs (off + 1) (λ j. if j == off then x else new j) i e (omega arith))

Occurs-cases : {u t : ℕ} {ts : List ℕ} → Occurs u (t ∷ ts) → (u ≡ t) ⊎ Occurs u ts
Occurs-cases here = inl refl
Occurs-cases (there o) = inr o

-- Where the part of a thread begins, and the thread that a position belongs to.
module _ (d : Index) (loaded : IsLoaded d) (m : IsMergeable d) where
  abbrev whole : List Entry
  whole = merged d merge_thread_num

  off-merged : (t : ℕ) → t < merge_thread_num → cur_new_off d t ≡ length (merged d t)
  off-merged t h =
      cur_new_off_lem d loaded.small (large d loaded m) m.fits t h
      ∙ sym (length-merged d loaded m t)

  pub length-whole : length whole ≡ new_total_size d
  length-whole =
      length-merged d loaded m 32 ∙ sym (new_total_size_lem d loaded.small (large d loaded m))

  length-next :
      (t : ℕ)
      → t < merge_thread_num
      → length (merged d (t + 1)) ≡ length (merged d t) + length (part d t (t + 1))
  length-next t h =
      ap length (merged-split d loaded m t (t + 1) (omega arith))
      ∙ length-append (merged d t) (part d t (t + 1))

  part-whole :
      (t i : ℕ) (e : Entry)
      → t < merge_thread_num
      → i < length (part d t (t + 1))
      → get_or whole (cur_new_off d t + i) e ≡ get_or (part d t (t + 1)) i e
  part-whole t i e h k =
      rw
        (
          off-merged t h,
          merged-split d loaded m (t + 1) 32 (omega arith),
          merged-split d loaded m t (t + 1) (omega arith),
          get_or-append_left (merged d t ++ part d t (t + 1)) (part d (t + 1) 32)
              (length (merged d t) + i) e
              (omega (arith, length-append (merged d t) (part d t (t + 1)), k)),
          get_or-append_right (merged d t) (part d t (t + 1)) i e,
        )
        refl

  thread_of :
      (n j : ℕ)
      → n ≤ merge_thread_num
      → j < length (merged d n)
      → (t : ℕ) × (t < merge_thread_num)
        × (i : ℕ) × (i < length (part d t (t + 1)))
        × (j ≡ cur_new_off d t + i)
  thread_of zero j h k = absurd (omega (arith, k, off-merged 0 (omega arith)))
  thread_of (suc n) j h k = elim (dec_lt j (length (merged d n))) [
    | yes l ↦ thread_of n j (omega arith) l
    | no l ↦ (
      n,
      h,
      j - length (merged d n),
      (let e : suc n ≡ n + 1 = omega arith in
          let k' = rw e at k in omega (arith, k', length-next n h, l)),
      omega (arith, off-merged n h),
    )
  ]

  module _ (readable : ℕ) (inside : num_buf_pages d < readable) (unset : ℕ → Entry)
      (e : Entry) where
    abbrev Right : (ℕ → Entry) → ℕ → Type 0
    Right new j = new j ≡ get_or whole j e

    store-part :
        (t j : ℕ) (new : ℕ → Entry)
        → t < merge_thread_num
        → Right new j
        → Right (store_new (cur_new_off d t) (part d t (t + 1)) new) j
    store-part t j new h r =
        let off : ℕ = cur_new_off d t in
        let out : List Entry = part d t (t + 1) in
        elim (dec_lt j off) [
          | yes l ↦ store_out out off new j (inl l) ∙ r
          | no l ↦ elim (dec_le (off + length out) j) [
            | yes k ↦ store_out out off new j (inr k) ∙ r
            | no k ↦
                let at : off + (j - off) ≡ j = omega arith in
                rw⁻¹ at (
                  store_in out off new (j - off) e (omega arith)
                  ∙ sym (part-whole t (j - off) e h (omega arith)))
          ]
        ]

    store-written :
        (t i : ℕ) (new : ℕ → Entry)
        → t < merge_thread_num
        → i < length (part d t (t + 1))
        → Right (store_new (cur_new_off d t) (part d t (t + 1)) new) (cur_new_off d t + i)
    store-written t i new h k =
        store_in (part d t (t + 1)) (cur_new_off d t) new i e k ∙ sym (part-whole t i e h k)

    merge_threads-keep :
        (order : List ℕ) (new : ℕ → Entry)
        → ((t : ℕ) → Occurs t order → t < merge_thread_num)
        → (new' : ℕ → Entry) × (merge_threads d readable unset order new ≡ some new')
          × ((j : ℕ) → Right new j → Right new' j)
          × ((t i : ℕ)
              → Occurs t order
              → i < length (part d t (t + 1))
              → Right new' (cur_new_off d t + i))
    unfolding merge_threads
    merge_threads-keep [] new w = (new, refl, (λ j r. r), λ t i o k. elim o [ ])
    merge_threads-keep (t ∷ order) new w =
        let h = w t here in
        let next : ℕ → Entry = store_new (cur_new_off d t) (part d t (t + 1)) new in
        let rest = merge_threads-keep order next (λ u o. w u (there o)) in
        (
          rest.0,
          rw (merge_threads, merge_thread-part d loaded m readable inside (unset t) t h) rest.1,
          (λ j r. rest.2 j (store-part t j new h r)),
          (λ u i o k. elim (Occurs-cases o) [
            | inl same ↦
                rw same (rest.2 (cur_new_off d t + i) (store-written t i new h (rw same at k)))
            | inr later ↦ rest.3 u i later k
          ]),
        )

    -- Whatever order the threads run in, the new array holds the merge of the array with the pages.
    pub merge_threads-merge :
        (order : List ℕ) (new : ℕ → Entry)
        → ((t : ℕ) → Occurs t order → t < merge_thread_num)
        → ((t : ℕ) → t < merge_thread_num → Occurs t order)
        → (new' : ℕ → Entry) × (merge_threads d readable unset order new ≡ some new')
          × ((j : ℕ)
              → j < new_total_size d
              → new' j
                ≡ get_or (merge (old_list d 0 d.total_size) (page_list d 0 (num_buf_pages d))) j e)
    merge_threads-merge order new w all =
        let r = merge_threads-keep order new w in
        (
          r.0,
          r.1,
          λ j h.
              let t = thread_of 32 j (omega arith) (omega (arith, length-whole, h)) in
              rw t.4 (r.3 t.0 t.2 (all t.0 t.1) t.3),
        )

  -- In a merge of a loaded index whose pages ascend and hold no key twice, into fewer than 2^32 keys, with
  -- a page with entries behind the pages, which can be read: a thread returns, and what it stores reaches from its `cur_new_off` to the one of the next thread;
  -- what the last one stores reaches to the end of the new arrays.
  pub merge_thread-fills :
      (readable : ℕ) (unset : Entry) (t : ℕ)
      → num_buf_pages d < readable
      → t < merge_thread_num
      → (out : List Entry) × (merge_thread d readable unset t ≡ some out)
        × (cur_new_off d t + length out
            ≡ (if t == 31 then new_total_size d else cur_new_off d (t + 1)))
  merge_thread-fills readable unset t inside h = (
    part d t (t + 1),
    merge_thread-part d loaded m readable inside unset t h,
    elim (ℕ_discrete t 31) [
      | yes e ↦
          rw e
            (omega (arith, off-merged 31 (omega arith), length-next 31 (omega arith), length-whole))
      | no ne ↦
          rw (==-false t 31 ne)
            (omega (arith, off-merged t h, off-merged (t + 1) (omega arith), length-next t h))
    ],
  )
