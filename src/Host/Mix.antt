-- ===== src/Host/Mix.antt =====
-- `mix_payload`: one request of a mixed batch, with its operation: 0 is a get, 1 an update and 2 an
-- insertion. The payload locks are free when a request takes them.
use pimlex_fast.Base.{
  ℕ, ◌+◌, ◌-◌, ◌/◌, ◌%◌, ◌^◌, Option, none, some, Bool, true, false, ltb, ◌==◌, if◌then◌else◌,
}
use pimlex_fast.Payload.{StringPayload, string_payload}
use pimlex_fast.Lock.{acquired, release_lock}
use pimlex_fast.Dpu.Defs.{invaild_pos}
use pimlex_fast.Page.{BufPage, update_key_page}
use pimlex_fast.Tree.Defs.{Node, update}
use pimlex_fast.Host.Index.{
  Index, set_page, set_tree, page_ratio, cur_key_off, dram_hit, find_overflow, place,
}
use pimlex_fast.Host.Requests.{Request, pret, val, slot_hit}

-- `string_payload('u')`
abbrev pub new_val : StringPayload
new_val = string_payload 117

-- The store of an update at `cell`, under the lock for `at`, a uint32_t.
unfoldable pub write_payload : Index → ℕ → ℕ → Index
write_payload d cell at = record d {
  payloads = λ j. if j == cell then new_val else d.payloads j;
  lock_arr = λ j.
      if j == at % 2 ^ 32 / 2 ^ 16 then release_lock (acquired (d.lock_arr j)) else d.lock_arr j;
}

-- `update_key_page`, and the `update` of the overflow tree when the page is empty.
abbrev pub update_tree_result : Index → ℕ → Option (Bool × Node) → Option ((Bool × Bool) × Index)
update_tree_result d partition_id none = none
update_tree_result d partition_id (some (there, tree)) =
    some ((false, there), set_tree d partition_id tree)

abbrev pub update_result :
    Index → ℕ → ℕ → ℕ → Option (Bool × BufPage) → Option ((Bool × Bool) × Index)
update_result d partition_id ipos key none = none
update_result d partition_id ipos key (some (true, page)) =
    some ((true, false), set_page d ipos page)
update_result d partition_id ipos key (some (false, page)) =
    update_tree_result (set_page d ipos page) partition_id
      (update key (d.opt_overflow_trees partition_id))

unfoldable pub update_overflow : Index → ℕ → ℕ → ℕ → Option ((Bool × Bool) × Index)
update_overflow d partition_id ipos key =
    update_result d partition_id ipos key (update_key_page key pret (d.buffer_pages ipos))

-- An insertion does neither, and goes on.
unfoldable pub overflow_op : ℕ → Index → ℕ → ℕ → ℕ → Option ((Bool × Bool) × Index)
overflow_op op d partition_id ipos key =
    if op == 0
    then find_overflow d partition_id ipos key
    else (if op == 1 then update_overflow d partition_id ipos key else some ((false, true), d))

-- The request whose key stands where the DPU says, at `at`.
unfoldable pub mix_near : ℕ → ℕ → StringPayload → Index → StringPayload × Index
unfolding write_payload
mix_near op at ret d =
    if op == 0
    then (d.payloads at, d)
    else (if op == 1 then (ret, write_payload d at at) else (ret, d))

-- The request whose key the host has found itself, at `at`, `k` behind the start of its block: the
-- code goes to the cell `k` behind the DPU's answer. `none` is a cell out of the array.
unfoldable pub mix_far :
    ℕ → Request → ℕ → ℕ → StringPayload → Index → Option (StringPayload × Index)
unfolding write_payload
mix_far op q k at ret d =
    let cell : ℕ = (q.slot + k) % 2 ^ 32 in
    if op == 0
    then (if ltb cell d.total_size then some (d.payloads cell, d) else none)
    else (if op == 1
        then (if ltb cell d.total_size then some (ret, write_payload d cell at) else none)
        else some (ret, d))

module _ (pgm_search : ℕ → ℕ → ℕ × ℕ) where
  abbrev pub mix_last :
      ℕ → StringPayload → Option ((Bool × Bool) × Index) → Option (StringPayload × Index)
  mix_last op ret none = none
  mix_last op ret (some ((true, there), d)) = some (if op == 0 then pret else ret, d)
  mix_last op ret (some ((false, there), d)) = some (ret, d)

  unfoldable pub mix_dram : ℕ → ℕ → Request → StringPayload → Index → Option (StringPayload × Index)
  unfolding mix_far overflow_op
  mix_dram op partition_id q ret d = elim (dram_hit pgm_search d q.key) [
    | some at ↦ mix_far op q (at - cur_key_off pgm_search d q.key) at ret d
    | none ↦
        if ltb q.slot d.total_size
        then mix_last op ret (
            overflow_op op d partition_id (cur_key_off pgm_search d q.key / page_ratio % 2 ^ 32)
              q.key)
        else some (ret, d)
  ]

  unfoldable pub mix_first :
      ℕ
      → ℕ
      → Request
      → StringPayload
      → Option ((Bool × Bool) × Index)
      → Option (StringPayload × Index)
  unfolding mix_dram
  mix_first op partition_id q ret none = none
  mix_first op partition_id q ret (some ((true, there), d)) =
      some (if op == 0 then pret else ret, d)
  mix_first op partition_id q ret (some ((false, true), d)) = mix_dram op partition_id q ret d
  mix_first op partition_id q ret (some ((false, false), d)) = some (ret, d)

  -- What is left to a request that the first scan has not served.
  unfoldable pub mix_missed :
      ℕ → ℕ → Request → StringPayload → Index → Option (StringPayload × Index)
  unfolding mix_first overflow_op
  mix_missed op partition_id q ret d =
      if ltb q.slot d.total_size
      then mix_first op partition_id q ret
          (overflow_op op d partition_id (q.slot / page_ratio) q.key)
      else mix_dram op partition_id q ret d

  unfoldable pub mix_request :
      ℕ → ℕ → Request → StringPayload × Index → Option (StringPayload × Index)
  unfolding mix_missed mix_near slot_hit
  mix_request op partition_id q (ret, d) =
      if q.slot == invaild_pos
      then mix_missed op partition_id q ret d
      else (if op == 2
          then some (ret, place val d partition_id (q.slot / page_ratio) q.key)
          else elim (slot_hit d q) [
            | some at ↦ some (mix_near op at ret d)
            | none ↦ mix_missed op partition_id q ret d
          ])
