-- ===== src/Examples/Merges.antt =====
-- A merge of the index of 2,048 keys with one entry in a page.
use pimlex_fast.Base.{
  ℕ, zero, suc, ◌+◌, ◌≤◌, ◌<◌, ◌≡◌, refl, arith, List, [], ◌∷◌, none, some, ◌==◌, if◌then◌else◌,
  length, ℕ_discrete, ==-false,
}
use pimlex_fast.Payload.{StringPayload, string_payload}
use pimlex_fast.Page.{Entry, BufPage}
use pimlex_fast.Dpu.Tasklets.{Occurs, here, there}
use pimlex_fast.Routing.Defs.{ReplicasInfo}
use pimlex_fast.Host.Index.{Index, per_dpu_input_size}
use pimlex_fast.Host.Bound.{IsLoaded}
use pimlex_fast.Host.Batches.{count_from}
use pimlex_fast.Merge.Defs.{merge_thread, cur_new_off, new_total_size, merge_thread_num}
use pimlex_fast.Merge.Chains.{IsMergeable}
use pimlex_fast.Merge.Threads.{merge_thread-fills}
use pimlex_fast.Merge.Install.{merge_and_retrain}
use pimlex_fast.Merge.Result.{IsMerged, merge_and_retrain-IsMerged}
use pimlex_fast.Merge.Fault.{merge_thread-none}
use pimlex_fast.Examples.Hosts.{threes, threes-IsLoaded, empty_page}

abbrev entry_121 : Entry
entry_121 = record { buf_key = 121; buf_payload = string_payload 7 }

abbrev pub one_page : BufPage
one_page = record { lock_ = 0; cells = entry_121 ∷ [] }

-- Page 5 has the entry; behind the 257 pages the memory reads as a page with an entry.
abbrev pub merging : Index
merging = record threes {
  buffer_pages = λ i. if i == 5 then one_page else (if i == 257 then one_page else empty_page);
}

pub merging-IsLoaded : IsLoaded merging
merging-IsLoaded = record {
  sorted = threes-IsLoaded.sorted;
  sampled = threes-IsLoaded.sampled;
  whole = threes-IsLoaded.whole;
  small = threes-IsLoaded.small;
  slices = threes-IsLoaded.slices;
  partitions = threes-IsLoaded.partitions;
  bounds = threes-IsLoaded.bounds;
}

pub merging-IsMergeable : IsMergeable merging
merging-IsMergeable = record {
  exact = omega arith;
  ascends = λ i h. elim (ℕ_discrete i 5) [
    | yes e ↦ rw e (omega arith, omega arith)
    | no ne ↦ rw (==-false i 5 ne, ==-false i 257 (omega arith)) (omega arith)
  ];
  last = λ i h k. rw (==-false i 5 (omega arith), ==-false i 257 (omega arith)) refl;
  fresh = λ i j h k. elim (ℕ_discrete j 5) [
    | yes e ↦ rw e ((λ f. omega (arith, f)), tt)
    | no ne ↦ rw (==-false j 5 ne, ==-false j 257 (omega arith)) tt
  ];
  fits = omega arith;
  filled = omega arith;
}

-- The threads in the order of their numbers.
Occurs-below : (t i n : ℕ) → Occurs t (count_from i n) → t < i + n
Occurs-below t i zero o = elim o [ ]
Occurs-below _ i (suc n) here = omega arith
Occurs-below t i (suc n) (there o) = omega (arith, Occurs-below t (i + 1) n o)

Occurs-count_from : (t i n : ℕ) → i ≤ t → t < i + n → Occurs t (count_from i n)
Occurs-count_from t i zero h k = absurd (omega arith)
Occurs-count_from t i (suc n) h k = elim (ℕ_discrete t i) [
  | yes e ↦ rw e here
  | no ne ↦ there (Occurs-count_from t (i + 1) n (omega arith) (omega arith))
]

abbrev tids : List ℕ
tids = count_from 0 32

tids-few : (t : ℕ) → Occurs t tids → t < merge_thread_num
tids-few t o = omega (arith, Occurs-below t 0 32 o)

tids-all : (t : ℕ) → t < merge_thread_num → Occurs t tids
tids-all t h = Occurs-count_from t 0 32 (omega arith) h

abbrev unset : Entry
unset = record { buf_key = 0; buf_payload = string_payload 0 }

abbrev pub made : ReplicasInfo
made = record {
  cur_dpu = 0;
  cur_ret_partition = 0;
  nr_replicas_per_partition = [];
  nr_replicas_cumulative_partition = [];
}

abbrev pub behind : ℕ → BufPage
behind i = one_page

abbrev pub vals : ℕ → StringPayload
vals i = string_payload i

abbrev pub trained : ℕ → ℕ → ℕ × ℕ
trained p key = (0, 2)

merge_thread-fills_example :
    (out : List Entry) × (merge_thread merging 258 unset 0 ≡ some out)
    × (cur_new_off merging 0 + length out
        ≡ (if 0 == 31 then new_total_size merging else cur_new_off merging 1))
merge_thread-fills_example =
    merge_thread-fills merging merging-IsLoaded merging-IsMergeable 258 unset 0 (omega arith)
      (omega arith)

-- The thread of the last pages, all empty, when the 257 pages are all that there is.
merge_thread-none_example : merge_thread merging 257 unset 31 ≡ none
merge_thread-none_example =
    merge_thread-none merging 257 unset 31
      (λ i h k. rw (==-false i 5 (omega arith), ==-false i 257 (omega arith)) refl)

-- The index after it, and PGM-indexes that leave a whole slice to the bisection.
pub merging_run :
    (d' : Index) × (merge_and_retrain [] made behind vals trained 258
        (λ t. unset)
        tids
        tids
        (λ i. unset)
        (λ i. 0)
        merging
      ≡ some d')
    × IsMerged [] made behind vals trained merging d'
merging_run =
    merge_and_retrain-IsMerged [] made behind vals trained merging 258 (λ t. unset) tids tids
      (λ i. unset) (λ i. 0) merging-IsLoaded merging-IsMergeable (omega arith) (omega arith)
      tids-few tids-all tids-few tids-all

abbrev pub after : Index
after = merging_run.0

abbrev retrained : ℕ → ℕ → ℕ × ℕ
retrained p key = (0, per_dpu_input_size after)
