-- ===== src/Host/Find.antt =====
-- The host's own search, and a get: they find every key of the array below the last slice.
use pimlex_fast.Base.{
  ℕ, zero, suc, ◌+◌, ◌-◌, ◌*◌, ◌%◌, ◌^◌, ◌≤◌, ◌<◌, ◌≡◌, refl, sym, arith, Option, none, some, true,
  dec_lt, ℕ_discrete, lt→ltb, le→ltb, ==_iff, ==-false,
}
use pimlex_fast.Host.Bound.{
  IsLoaded, IsAccurate, slice_end, split, split-IsBound, split-upto, split-pos, cur_key_off_lem,
}
use pimlex_fast.Search.Lower.{StrictOn→SortedOn}
use pimlex_fast.Payload.{StringPayload}
use pimlex_fast.Dpu.Defs.{invaild_pos}
use pimlex_fast.Routing.Defs.{nr_partition}
use pimlex_fast.Host.Index.{Index, per_dpu_input_size, scan_block, dram_hit}
use pimlex_fast.Host.Requests.{
  slot_hit, get_from_dram, get_result, get_request, search_payload_from_dram,
}

-- The scan of a block finds the only position of a key that is in the part to come.
module _ (d : Index) (loaded : IsLoaded d) (word key at : ℕ) (inside : at < d.total_size)
    (here : d.keys at ≡ key) (wrap : (x : ℕ) → x < word → x % word ≡ x) where
  scan_block_lem :
      (n off k : ℕ)
      → off + k + n ≤ word
      → off + k ≤ at
      → at < off + k + n
      → scan_block d word off key k n ≡ some at
  unfolding scan_block
  scan_block_lem zero off k w h l = absurd (omega arith)
  scan_block_lem (suc n) off k w h l =
      let m : (off + k) % word ≡ off + k = wrap (off + k) (omega arith) in
      elim (ℕ_discrete (off + k) at) [
        | yes e ↦
            rw (scan_block, m, e, lt→ltb at d.total_size inside, (==_iff (d.keys at) key).1 here)
        | no ne ↦
            let lower : d.keys (off + k) < d.keys at =
              loaded.sorted (off + k) at (omega arith) (omega arith) inside in
            rw
              (
                scan_block,
                m,
                lt→ltb (off + k) d.total_size (omega arith),
                ==-false (d.keys (off + k)) key (omega arith),
              )
              (scan_block_lem n off (k + 1) (omega arith) (omega arith) (omega arith))
      ]

-- A scan that finds a position finds the key there.
scan_block_sound :
    (d : Index) (word off key k n at : ℕ)
    → scan_block d word off key k n ≡ some at
    → (at < d.total_size) × (d.keys at ≡ key)
unfolding scan_block
scan_block_sound d word off key k zero at e = absurd (cc)
scan_block_sound d word off key k (suc n) at e =
    let here : ℕ = (off + k) % word in
    elim (dec_lt here d.total_size) [
      | no h ↦
          scan_block_sound d word off key (k + 1) n at
            (rw (scan_block, le→ltb here d.total_size (omega arith)) at e)
      | yes h ↦ elim (ℕ_discrete (d.keys here) key) [
        | no ne ↦
            scan_block_sound d word off key (k + 1) n at
              (rw (scan_block, lt→ltb here d.total_size h, ==-false (d.keys here) key ne) at e)
        | yes q ↦
            let same : some here ≡ some at =
              rw (scan_block, lt→ltb here d.total_size h, (==_iff (d.keys here) key).1 q) at e in
            let eq : here ≡ at = cc in rw (sym eq) (h, q)
      ]
    ]

module _ (d : Index) (loaded : IsLoaded d) (pgm_search : ℕ → ℕ → ℕ × ℕ)
    (accurate : IsAccurate pgm_search d) (at : ℕ) (inside : at < d.total_size)
    (last : d.keys at < d.partial_keys (per_dpu_input_size d * nr_partition - 1)) where
  abbrev key : ℕ
  key = d.keys at

  first_key : d.partial_keys 0 ≤ key
  first_key =
      rw (loaded.sampled 0 (omega (arith, loaded.slices)))
        (StrictOn→SortedOn loaded.sorted 0 at (omega arith) (omega arith) inside)

  abbrev block : ℕ
  block = split d loaded pgm_search accurate key first_key last

  at-from : (block - 1) * 8 ≤ at
  at-from =
      let b = split-IsBound d loaded pgm_search accurate key first_key last in
      let pos = split-pos d loaded pgm_search accurate key first_key last in
      elim (dec_lt at ((block - 1) * 8)) [
        | no h ↦ omega arith
        | yes h ↦ absurd (
            omega (
              arith,
              b.below (block - 1) (omega arith) (omega arith),
              loaded.sampled (block - 1) (omega (arith, b.upto)),
              loaded.sorted at ((block - 1) * 8) (omega arith) h
                  (omega (arith, b.upto, loaded.whole)),
            ))
      ]

  at-upto : at < block * 8
  at-upto =
      let b = split-IsBound d loaded pgm_search accurate key first_key last in
      let inner : block < d.partial_total_size = omega (
        arith,
        split-upto d loaded pgm_search accurate key first_key last,
        slice_end d loaded 127 (omega arith),
      ) in
      elim (dec_lt at (block * 8)) [
        | yes h ↦ h
        | no h ↦ absurd (
            omega (
              arith,
              b.above block (omega arith) inner,
              loaded.sampled block inner,
              StrictOn→SortedOn loaded.sorted (block * 8) at (omega arith) (omega arith) inside,
            ))
      ]

  pub dram_hit-at : dram_hit pgm_search d key ≡ some at
  unfolding dram_hit
  dram_hit-at = rw (cur_key_off_lem d loaded pgm_search accurate key first_key last) (
      scan_block_lem d loaded (2 ^ 64) key at inside refl (λ x h. omega arith) 8 ((block - 1) * 8) 0
        (omega (arith, at-from, loaded.small)) (omega (arith, at-from)) (omega (arith, at-upto)))

  -- `search_payload_from_dram` of a key that stands at a position of the array, below the last key
  -- of the last slice, returns the payload of that position, when the PGM-index of the slice is
  -- accurate.
  pub search_payload_from_dram-finds :
      (temp ret : StringPayload)
      → search_payload_from_dram pgm_search temp key (ret, d) ≡ some (d.payloads at, d)
  unfolding search_payload_from_dram
  search_payload_from_dram-finds temp ret = rw (search_payload_from_dram, dram_hit-at)

  same_position : (i : ℕ) → (i < d.total_size) × (d.keys i ≡ key) → i ≡ at
  same_position i (h, e) = elim (dec_lt i at) [
    | yes l ↦ absurd (omega (arith, loaded.sorted i at (omega arith) l inside))
    | no l ↦ elim (dec_lt at i) [
      | yes m ↦ absurd (omega (arith, loaded.sorted at i (omega arith) m h))
      | no m ↦ omega arith
    ]
  ]

  slot_hit_sound :
      (slot i : ℕ)
      → slot_hit d (record { key = key; slot = slot }) ≡ some i
      → (i < d.total_size) × (d.keys i ≡ key)
  unfolding slot_hit
  slot_hit_sound slot i e = elim (ℕ_discrete slot invaild_pos) [
    | yes m ↦
        let f : ◌≡◌ {A = Option ℕ} none (some i) =
          rw (slot_hit, (==_iff slot invaild_pos).1 m) at e in
        absurd (cc)
    | no m ↦
        scan_block_sound d (2 ^ 32) slot key 0 8 i (rw (slot_hit, ==-false slot invaild_pos m) at e)
  ]

  get_result-finds :
      (partition_id slot : ℕ) (ret : StringPayload) (hit : Option ℕ)
      → slot_hit d (record { key = key; slot = slot }) ≡ hit
      → get_result pgm_search true partition_id (record { key = key; slot = slot }) ret d hit
        ≡ some (d.payloads at, d)
  unfolding get_result get_from_dram
  get_result-finds partition_id slot ret none e = rw (get_from_dram, dram_hit-at)
  get_result-finds partition_id slot ret (some i) e = rw (same_position i (slot_hit_sound slot i e))

  -- In a run of reads only, a request of `get_real_payload` for such a key gets the payload of its
  -- position, whatever the DPU has answered.
  pub get_request-finds :
      (partition_id slot : ℕ) (ret : StringPayload)
      → get_request pgm_search true partition_id (record { key = key; slot = slot }) (ret, d)
        ≡ some (d.payloads at, d)
  unfolding get_request
  get_request-finds partition_id slot ret =
      get_result-finds partition_id slot ret (slot_hit d (record { key = key; slot = slot })) refl
