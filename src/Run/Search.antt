-- ===== src/Run/Search.antt =====
-- A thread of a search run gets the payload of every query.
use mathlib.Core.List.Memᴰ
use mathlib.Core.List.{Memᴰ, append_assoc, append-nil, map-append}
use pimlex_fast.Base.{
  ℕ, ◌+◌, ◌-◌, ◌≤◌, ◌<◌, ◌≡◌, refl, sym, ap, ◌∙◌, arith, List, [], ◌∷◌, ◌++◌, map, Option, none,
  some, true, subst,
}
use pimlex_fast.Payload.{StringPayload}
use pimlex_fast.Host.Index.{Index, dram_hit}
use pimlex_fast.Host.Requests.{Request, get_request}
use pimlex_fast.Host.Batches.{
  nr_dpus, count_from, partition_id, run_requests, run_dpus, get_real_payload,
}
use pimlex_fast.Host.Bound.{IsLoaded, IsAccurate}
use pimlex_fast.Host.Find.{get_request-finds, dram_hit-at}
use pimlex_fast.Run.Cells.{cells_sound, cells_complete, gathered, gathered_complete}
use pimlex_fast.Run.Slots.{IsKey, slot_search-cells}
use pimlex_fast.Run.Defs.{with_answers, received, search_buffers, search_thread}
use pimlex_fast.Run.Serving.{IsServing}
use pimlex_fast.Batch.Defs.{max_buffer_size, thread_range}
use pimlex_fast.Run.Record.{recorded, run_dpus-recorded}

-- The note of a request: its key, and the payload that it leaves in `ret`.
abbrev pub answered : Request → StringPayload × Index → ℕ × StringPayload
answered q s = (q.key, s.0)

module _ (d : Index) (loaded : IsLoaded d) (pgm_search : ℕ → ℕ → ℕ × ℕ)
    (accurate : IsAccurate pgm_search d) where
  abbrev found : Option ℕ → StringPayload
  found none = d.payloads 0
  found (some at) = d.payloads at

  -- What a query should get.
  abbrev expected : ℕ → ℕ × StringPayload
  expected key = (key, found (dram_hit pgm_search d key))

  abbrev get_step : ℕ → Request → StringPayload × Index → Option (StringPayload × Index)
  get_step i q s = get_request pgm_search true (partition_id s.1 i) q s

  dram_hit-key : (key : ℕ) (is_key : IsKey d key) → dram_hit pgm_search d key ≡ some is_key.0
  dram_hit-key key (at, inside, here, last) =
      rw (sym here) (dram_hit-at d loaded pgm_search accurate at inside (rw here last))

  get_step-key :
      (i key slot : ℕ) (ret : StringPayload)
      → IsKey d key
      → get_step i (record { key = key; slot = slot }) (ret, d) ≡ some ((expected key).1, d)
  get_step-key i key slot ret is_key =
      let (at, inside, here, last) = is_key in
      rw (dram_hit-key key is_key, sym here)
        (get_request-finds d loaded pgm_search accurate at inside (rw here last) (partition_id d i)
          slot ret)

  -- The state after the cells of one DPU, and of all: each leaves what it should get.
  run_requests-keys :
      (i j : ℕ) (rbuffer : ℕ → ℕ) (cells : List ℕ) (ret : StringPayload)
      (notes : List (ℕ × StringPayload))
      → ((key : ℕ) → Memᴰ key cells → IsKey d key)
      → (ret' : StringPayload) × (run_requests
            (recorded get_step answered)
            i
            (with_answers rbuffer j cells)
            ((ret, d), notes)
          ≡ some ((ret', d), notes ++ map expected cells))
  unfolding run_requests
  run_requests-keys i j rbuffer [] ret notes keys = (ret, rw (append-nil notes) refl)
  run_requests-keys i j rbuffer (key ∷ cells) ret notes keys =
      let got = get_step-key i key (rbuffer j) ret (keys key (Memᴰ.head refl)) in
      let r =
        run_requests-keys i (j + 1) rbuffer cells (expected key).1 (notes ++ (expected key ∷ []))
          (λ k m. keys k (Memᴰ.tail m)) in
      (
        r.0,
        rw (run_requests, got)
            (r.1
              ∙ ap (λ ns. some ((r.0, d), ns))
                  (append_assoc notes (expected key ∷ []) (map expected cells))),
      )

  run_dpus-keys :
      (answers : ℕ → List ℕ → ℕ → ℕ) (buffers : ℕ → List ℕ) (order : List ℕ) (ret : StringPayload)
      (notes : List (ℕ × StringPayload))
      → ((h key : ℕ) → Memᴰ key (buffers h) → IsKey d key)
      → (ret' : StringPayload) × (run_dpus
            (recorded get_step answered)
            (received answers buffers)
            order
            ((ret, d), notes)
          ≡ some ((ret', d), notes ++ map expected (gathered buffers order)))
  unfolding run_dpus
  run_dpus-keys answers buffers [] ret notes keys = (ret, rw (append-nil notes) refl)
  run_dpus-keys answers buffers (i ∷ order) ret notes keys =
      let one = run_requests-keys i 0 (answers i (buffers i)) (buffers i) ret notes (keys i) in
      let r = run_dpus-keys answers buffers order one.0 (notes ++ map expected (buffers i)) keys in
      (
        r.0,
        rw (run_dpus, one.1)
            (r.1
              ∙ ap (λ ns. some ((r.0, d), ns))
                  (append_assoc notes (map expected (buffers i))
                      (map expected (gathered buffers order))
                    ∙ ap (λ ns. notes ++ ns)
                        (sym (map-append expected (buffers i) (gathered buffers order))))),
      )

  -- In a run with the flag `search`, on a loaded index whose level serves every partition, with accurate
  -- PGM-indexes: when the queries of a thread are keys of the array below the last sampled key of the last
  -- slice, and no more than a send buffer has cells, the thread runs to its end, whatever the DPUs
  -- answer and the index stays as it is; the notes of the run have every query with its payload.
  pub search_thread-finds :
      (answers : ℕ → List ℕ → ℕ → ℕ) (access_num : List ℕ) (querys : ℕ → ℕ) (num_querys tid : ℕ)
      (ret : StringPayload)
      → IsServing d.upper_dram_level
      → (thread_range num_querys tid).1 - (thread_range num_querys tid).0 ≤ max_buffer_size
      → ((r : ℕ)
          → (thread_range num_querys tid).0 ≤ r
          → r < (thread_range num_querys tid).1
          → IsKey d (querys r))
      → (buffers : ℕ → List ℕ) × (last : StringPayload) × (notes : List (ℕ × StringPayload))
        × (search_buffers d access_num querys num_querys tid ≡ some buffers)
        × (search_thread pgm_search answers access_num querys num_querys tid (ret, d)
            ≡ some (last, d))
        × (run_dpus
              (recorded get_step answered)
              (received answers buffers)
              (count_from 0 nr_dpus)
              ((ret, d), [])
            ≡ some ((last, d), notes))
        × ((r at : ℕ)
            → (thread_range num_querys tid).0 ≤ r
            → r < (thread_range num_querys tid).1
            → at < d.total_size
            → d.keys at ≡ querys r
            → Memᴰ (querys r, d.payloads at) notes)
  unfolding search_buffers search_thread get_real_payload
  search_thread-finds answers access_num querys num_querys tid ret serving room keys =
      let start = (thread_range num_querys tid).0 in
      let n = (thread_range num_querys tid).1 - start in
      let good = λ (r : ℕ) (a : start ≤ r) (b : r < start + n). keys r a (omega (arith, a, b)) in
      let slots = slot_search-cells d loaded serving access_num querys start n room good in
      let buffers = slots.0 in
      let routes = slots.1 in
      let in_range = λ (h key : ℕ) (m : Memᴰ key (buffers h)).
        cells_sound routes querys h n start key (subst (λ cells. Memᴰ key cells) (slots.3 h) m) in
      let run =
        run_dpus-keys answers buffers (count_from 0 nr_dpus) ret []
          (λ h key m. let q = in_range h key m in subst (IsKey d) (sym q.3) (good q.0 q.1 q.2)) in
      let stands = λ (r : ℕ) (a : start ≤ r) (b : r < start + n).
        gathered_complete buffers (querys r) (routes r) 0 nr_dpus (omega arith) (slots.4 r a b) (
          subst (λ cells. Memᴰ (querys r) cells) (sym (slots.3 (routes r)))
            (cells_complete routes querys n start r a b)) in
      (
        buffers,
        run.0,
        map expected (gathered buffers (count_from 0 nr_dpus)),
        slots.2,
        rw (search_thread, slots.2)
            (run_dpus-recorded get_step answered (received answers buffers) (count_from 0 nr_dpus)
              (ret, d) (run.0, d) [] _ run.1),
        run.1,
        λ r at a b inside here.
            let is_key : IsKey d (querys r) = (at, inside, here, (keys r a b).3) in
            subst (λ note. Memᴰ note (map expected (gathered buffers (count_from 0 nr_dpus))))
              (ap (λ hit. (querys r, found hit)) (dram_hit-key (querys r) is_key))
              (Memᴰ.map expected (stands r a (omega (arith, a, b)))),
      )
