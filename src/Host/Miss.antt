-- ===== src/Host/Miss.antt =====
-- The requests that the DPU answers with a miss: an insertion of `insert_payload` finds its page
-- through the host's own search; one of `mix_payload` is dropped.
use pimlex_fast.Base.{
  ℕ, ◌+◌, ◌-◌, ◌*◌, ◌/◌, ◌≤◌, ◌<◌, ◌≡◌, refl, arith, some, true, ltb, Option-cases, Bool-cases, ◌⊎◌,
  inl, inr, dec_lt, ==_iff, lt→ltb, le→leb,
}
use pimlex_fast.Payload.{StringPayload}
use pimlex_fast.Dpu.Defs.{invaild_pos}
use pimlex_fast.Routing.Defs.{nr_partition}
use pimlex_fast.Page.{page_count, buf_size, released}
use pimlex_fast.Page.Insert.{IsValid, insert_after, insert_page-insert_after, insert_page-full}
use pimlex_fast.Tree.Defs.{insert}
use pimlex_fast.Host.Index.{
  Index, before, covers, place, per_dpu_input_size, cur_key_off, dram_hit, page_ratio,
}
use pimlex_fast.Host.Requests.{Request, val, insert_request}
use pimlex_fast.Host.Mix.{mix_request, mix_missed, mix_first, mix_dram, mix_far, overflow_op}
use pimlex_fast.Host.Bound.{
  IsLoaded, IsAccurate, slice_end, split, split-IsBound, split-upto, split-pos, cur_key_off_lem,
}

-- The page of the key's block has taken the entry, or it was full and the tree has.
abbrev pub Placed : ℕ → ℕ → ℕ → Index → Index → Type 0
Placed i partition_id key d after =
    ((after.buffer_pages i).cells
      ≡ insert_after (record { buf_key = key; buf_payload = val }) (d.buffer_pages i).cells)
    ⊎ ((page_count (d.buffer_pages i) ≡ buf_size)
        × (after.opt_overflow_trees partition_id
            ≡ (insert key (d.opt_overflow_trees partition_id)).1))

module _ (d : Index) (partition_id i key : ℕ) (valid : IsValid (d.buffer_pages i)) where
  pub place_lem :
      covers d i key ≡ true → Placed i partition_id key d (place val d partition_id i key)
  unfolding place released
  place_lem h = elim (dec_lt (page_count (d.buffer_pages i)) buf_size) [
    | yes k ↦ inl (
        rw (
          place,
          h,
          insert_page-insert_after key val (d.buffer_pages i) valid k,
          (==_iff i i).1 refl,
        ))
    | no k ↦
        let full : page_count (d.buffer_pages i) ≡ buf_size = omega (arith, valid.few) in
        inr (
          full,
          rw (
            place,
            h,
            insert_page-full key val (d.buffer_pages i) full,
            (==_iff partition_id partition_id).1 refl,
          ),
        )
  ]

-- On a loaded index with an accurate PGM-index, a request for a key from the first sampled key on
-- and below the last key of the last slice, which the DPU answers with a miss, is placed in the
-- page whose block covers the key, or in the overflow tree of its partition if that page is full.
pub insert_request-Placed :
    (d : Index) (loaded : IsLoaded d) (pgm_search : ℕ → ℕ → ℕ × ℕ)
    → IsAccurate pgm_search d
    → (partition_id key : ℕ) → d.partial_keys 0 ≤ key
    → key < d.partial_keys (per_dpu_input_size d * nr_partition - 1)
    → ((i : ℕ) → IsValid (d.buffer_pages i))
    → (i : ℕ) × (d.partial_keys i ≤ key)
      × (key < d.partial_keys (i + 1))
      × Placed i partition_id key d
          (insert_request pgm_search partition_id (record { key = key; slot = invaild_pos }) d)
unfolding insert_request
insert_request-Placed d loaded pgm_search accurate partition_id key first last valid =
    let b = split-IsBound d loaded pgm_search accurate key first last in
    let pos = split-pos d loaded pgm_search accurate key first last in
    let inner : split d loaded pgm_search accurate key first last < d.partial_total_size = omega (
      arith,
      split-upto d loaded pgm_search accurate key first last,
      slice_end d loaded 127 (omega arith),
    ) in
    let i : ℕ = split d loaded pgm_search accurate key first last - 1 in
    let low : d.partial_keys i ≤ key = b.below i (omega arith) (omega arith) in
    let next : i + 1 ≡ split d loaded pgm_search accurate key first last = omega arith in
    let high : key < d.partial_keys (i + 1) =
      rw next (b.above (split d loaded pgm_search accurate key first last) (omega arith) inner) in
    let page : cur_key_off pgm_search d key / page_ratio ≡ i =
      rw (cur_key_off_lem d loaded pgm_search accurate key first last) (omega arith) in
    let room : i < before d.partial_total_size = omega (arith, loaded.whole, loaded.small) in
    (
      i,
      low,
      high,
      rw page (
          place_lem d partition_id i key (valid i) (
            rw (
              lt→ltb i (before d.partial_total_size) room,
              le→leb (d.partial_keys i) key low,
              lt→ltb key (d.partial_keys (i + 1)) high,
            ))),
    )

module _ (pgm_search : ℕ → ℕ → ℕ × ℕ) (partition_id : ℕ) (q : Request) (ret : StringPayload)
    (d : Index) where
  mix_dram-insertion : mix_dram pgm_search 2 partition_id q ret d ≡ some (ret, d)
  unfolding mix_dram mix_far overflow_op
  mix_dram-insertion = elim (Option-cases (dram_hit pgm_search d q.key)) [
    | inr (at, e) ↦ rw (mix_dram, e)
    | inl e ↦ elim (Bool-cases (ltb q.slot d.total_size)) [
      | inl h ↦ rw (mix_dram, e, h)
      | inr h ↦ rw (mix_dram, e, h)
    ]
  ]

  mix_missed-insertion : mix_missed pgm_search 2 partition_id q ret d ≡ some (ret, d)
  unfolding mix_missed mix_first overflow_op
  mix_missed-insertion = elim (Bool-cases (ltb q.slot d.total_size)) [
    | inl h ↦ rw (mix_missed, h) mix_dram-insertion
    | inr h ↦ rw (mix_missed, h) mix_dram-insertion
  ]

-- An insertion of a mixed batch that the DPU answers with a miss changes nothing: the key is lost.
mix_request-dropped :
    (pgm_search : ℕ → ℕ → ℕ × ℕ) (partition_id key : ℕ) (ret : StringPayload) (d : Index)
    → mix_request pgm_search 2 partition_id (record { key = key; slot = invaild_pos }) (ret, d)
      ≡ some (ret, d)
unfolding mix_request
mix_request-dropped pgm_search partition_id key ret d =
    mix_missed-insertion pgm_search partition_id (record { key = key; slot = invaild_pos }) ret d
