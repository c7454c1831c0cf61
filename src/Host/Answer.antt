-- ===== src/Host/Answer.antt =====
-- An insertion from the DPU's search to the page: the answer of a DPU that holds the slice of the key.
use pimlex_fast.Base.{
  ℕ, ◌+◌, ◌-◌, ◌*◌, ◌/◌, ◌≤◌, ◌<◌, ◌≡◌, refl, arith, dec_lt, lt→ltb, le→ltb, le→leb, ==-false,
}
use pimlex_fast.Search.Lower.{StrictOn→SortedOn}
use pimlex_fast.Dpu.Defs.{DpuArguments, invaild_pos, locate}
use pimlex_fast.Dpu.Lookup
use pimlex_fast.Dpu.Lookup.{slot_of, Covers, locate_exact}
use pimlex_fast.Routing.Defs.{nr_partition}
use pimlex_fast.Page.Insert.{IsValid}
use pimlex_fast.Host.Index.{Index, before, per_dpu_input_size, page_ratio}
use pimlex_fast.Host.Requests.{insert_request}
use pimlex_fast.Host.Bound.{IsLoaded, IsAccurate, slice_end, partial-StrictOn}
use pimlex_fast.Host.Miss.{Placed, place_lem, insert_request-Placed}

-- The DPU has the sampled keys of partition `p`, and the arguments that go with them.
pub record IsSlice (d : Index) (p : ℕ) (a : DpuArguments) (mram : ℕ → ℕ) : Type 0 where
  pub inside : p < nr_partition
  pub size : a.input_size ≡ per_dpu_input_size d
  pub start : a.start_pos ≡ per_dpu_input_size d * p
  pub keys : (i : ℕ) → i < a.input_size → mram i ≡ d.partial_keys (a.start_pos + i)

module _ (d : Index) (loaded : IsLoaded d) (few : d.total_size < invaild_pos) (p : ℕ)
    (a : DpuArguments) (mram : ℕ → ℕ) (slice : IsSlice d p a mram) where
  upto : a.start_pos + a.input_size ≤ d.partial_total_size
  upto = rw (slice.size, slice.start) (slice_end d loaded p slice.inside)

  slice-IsLoaded : (key : ℕ) → Lookup.IsLoaded mram 0 a key
  slice-IsLoaded key = record {
    some_key = rw slice.size (omega (arith, loaded.slices));
    sorted = λ i j u v w.
        rw (slice.keys i (omega arith), slice.keys j w)
          (StrictOn→SortedOn (partial-StrictOn d loaded) (a.start_pos + i) (a.start_pos + j)
            (omega arith) (omega arith) (omega (arith, upto)));
    fits = omega (arith, upto, loaded.whole, few);
  }

  block_after : (c : ℕ) → 0 < c → a.start_pos + (c - 1) + 1 ≡ a.start_pos + c
  block_after c h = omega arith

  -- On a loaded index with an accurate PGM-index, with fewer keys than the mark for a miss, an
  -- insertion that is answered by a DPU with the slice of a partition is placed in the page whose block
  -- covers the key, or in the overflow tree when that page is full, whether the DPU answers with a
  -- position or with a miss. The window of the DPU has to keep the number `c` of the slice's keys up
  -- to the key, which is not 0, and the key has to be below the last key of the last slice.
  pub insert_request-answered :
      (pgm_search : ℕ → ℕ → ℕ × ℕ)
      → IsAccurate pgm_search d
      → (partition_id key l r c : ℕ) → d.partial_keys 0 ≤ key
      → key < d.partial_keys (per_dpu_input_size d * nr_partition - 1)
      → Covers mram 0 a key l r c
      → 0 < c
      → ((i : ℕ) → IsValid (d.buffer_pages i))
      → (i : ℕ) × (d.partial_keys i ≤ key)
        × (key < d.partial_keys (i + 1))
        × Placed i partition_id key d (
            insert_request pgm_search partition_id
              (record { key = key; slot = locate mram 0 a key l r })
              d)
  unfolding insert_request
  insert_request-answered pgm_search accurate partition_id key l r c first last cover pos valid =
      let answer = locate_exact mram 0 a key (slice-IsLoaded key) l r c cover pos in
      elim (dec_lt c a.input_size) [
        | no h ↦
            rw (answer, le→ltb c a.input_size (omega arith))
              (insert_request-Placed d loaded pgm_search accurate partition_id key first last valid)
        | yes h ↦
            let i : ℕ = a.start_pos + (c - 1) in
            let low : d.partial_keys i ≤ key =
              rw (slice.keys (c - 1) (omega arith)) at
                (cover.split.below (c - 1) (omega arith) (omega arith)) in
            let high : key < d.partial_keys (i + 1) =
              rw (block_after c pos)
                (rw (slice.keys c h) at (cover.split.above c (omega arith) h)) in
            let page : slot_of a (c - 1) / page_ratio ≡ i = omega arith in
            let hit =
              ==-false (slot_of a (c - 1)) invaild_pos (omega (arith, upto, loaded.whole, few)) in
            let room : i < before d.partial_total_size =
              omega (arith, upto, h, loaded.whole, loaded.small) in
            (
              i,
              low,
              high,
              rw (answer, lt→ltb c a.input_size h, hit, page)
                  (place_lem d partition_id i key (valid i) (
                    rw
                      (
                        lt→ltb i (before d.partial_total_size) room,
                        le→leb (d.partial_keys i) key low,
                        lt→ltb key (d.partial_keys (i + 1)) high,
                      )
                      refl)),
            )
      ]
