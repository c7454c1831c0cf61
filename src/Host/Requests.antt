-- ===== src/Host/Requests.antt =====
-- What a handler does with one request, given the DPU's answer `slot`. The local `ret` passes from
-- request to request; the payload that `find_key_page` leaves in `pret` is the one it was made with.
use pimlex_fast.Base.{
  ℕ, ◌/◌, ◌^◌, Option, none, some, Bool, true, false, not, ◌&&◌, ltb, ◌==◌, if◌then◌else◌,
}
use pimlex_fast.Payload.{StringPayload, string_payload}
use pimlex_fast.Dpu.Defs.{invaild_pos}
use pimlex_fast.Host.Index.{
  Index, page_ratio, interleave, partition_of, scan_block, cur_key_off, dram_hit, find_overflow,
  place,
}

-- A query in the send buffer of a DPU, and the answer beside it.
pub record Request : Type 0 where
  pub key : ℕ
  pub slot : ℕ

-- `new string_payload('0')`
abbrev pub pret : StringPayload
pret = string_payload 48

-- `string_payload('c')`
abbrev pub val : StringPayload
val = string_payload 99

-- `rbuffer[j] + k` is a uint32_t.
unfoldable pub slot_hit : Index → Request → Option ℕ
slot_hit d q =
    if q.slot == invaild_pos then none else scan_block d (2 ^ 32) q.slot q.key 0 interleave

module _ (pgm_search : ℕ → ℕ → ℕ × ℕ) where
  -- After the last overflow check of a get.
  abbrev pub last_check :
      StringPayload → Option ((Bool × Bool) × Index) → Option (StringPayload × Index)
  last_check ret none = none
  last_check ret (some ((true, there), d)) = some (pret, d)
  last_check ret (some ((false, there), d)) = some (ret, d)

  unfoldable pub get_from_dram :
      ℕ → Request → StringPayload → Index → Option (StringPayload × Index)
  get_from_dram partition_id q ret d = elim (dram_hit pgm_search d q.key) [
    | some at ↦ some (d.payloads at, d)
    | none ↦
        if ltb q.slot d.total_size
        then last_check ret (find_overflow d partition_id (q.slot / page_ratio) q.key)
        else some (ret, d)
  ]

  -- `dram_check` is what `lookup` answers.
  unfoldable pub first_check :
      ℕ → Request → StringPayload → Option ((Bool × Bool) × Index) → Option (StringPayload × Index)
  unfolding get_from_dram
  first_check partition_id q ret none = none
  first_check partition_id q ret (some ((true, there), d)) = some (pret, d)
  first_check partition_id q ret (some ((false, true), d)) = get_from_dram partition_id q ret d
  first_check partition_id q ret (some ((false, false), d)) = some (ret, d)

  -- What the scan of the DPU's block leaves to do.
  unfoldable pub get_result :
      Bool → ℕ → Request → StringPayload → Index → Option ℕ → Option (StringPayload × Index)
  unfolding first_check
  get_result is_pure_read partition_id q ret d (some at) = some (d.payloads at, d)
  get_result is_pure_read partition_id q ret d none =
      if not is_pure_read && ltb q.slot d.total_size
      then first_check partition_id q ret (find_overflow d partition_id (q.slot / page_ratio) q.key)
      else get_from_dram partition_id q ret d

  -- One request of `get_real_payload`.
  unfoldable pub get_request :
      Bool → ℕ → Request → StringPayload × Index → Option (StringPayload × Index)
  unfolding get_result slot_hit
  get_request is_pure_read partition_id q (ret, d) =
      get_result is_pure_read partition_id q ret d (slot_hit d q)

  -- `search_payload_from_dram`; `temp` is the unset payload that it copies out after `lookup`.
  abbrev pub dram_check_result :
      StringPayload
      → StringPayload
      → Option ((Bool × Bool) × Index)
      → Option (StringPayload × Index)
  dram_check_result temp ret none = none
  dram_check_result temp ret (some ((true, there), d)) = some (ret, d)
  dram_check_result temp ret (some ((false, there), d)) = some (temp, d)

  unfoldable pub search_payload_from_dram :
      StringPayload → ℕ → StringPayload × Index → Option (StringPayload × Index)
  search_payload_from_dram temp key (ret, d) = elim (dram_hit pgm_search d key) [
    | some at ↦ some (d.payloads at, d)
    | none ↦
        if ltb (cur_key_off pgm_search d key) d.total_size
        then dram_check_result temp ret
            (find_overflow d (partition_of d key) (cur_key_off pgm_search d key / page_ratio) key)
        else some (ret, d)
  ]

  -- One request of `insert_payload`.
  unfoldable pub insert_request : ℕ → Request → Index → Index
  insert_request partition_id q d =
      if q.slot == invaild_pos
      then place val d partition_id (cur_key_off pgm_search d q.key / page_ratio) q.key
      else place val d partition_id (q.slot / page_ratio) q.key
