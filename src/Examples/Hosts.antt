-- ===== src/Examples/Hosts.antt =====
-- An index of 2,048 keys, the multiples of 3, in 128 slices of two sampled keys, with empty pages.
use pimlex_fast.Base.{
  ℕ, zero, suc, ◌+◌, ◌*◌, ◌<◌, ◌≡◌, refl, arith, List, [], ◌∷◌, some, true, length, get_or,
}
use pimlex_fast.Payload.{string_payload}
use pimlex_fast.Page.{BufPage, insert_page}
use pimlex_fast.Page.Insert.{IsValid}
use pimlex_fast.Tree.Defs.{leaf}
use pimlex_fast.Dpu.Defs.{invaild_pos}
use pimlex_fast.Host.Index.{Index}
use pimlex_fast.Host.Requests.{Request, get_request}
use pimlex_fast.Host.Batches.{insert_payload}
use pimlex_fast.Host.Bound.{IsLoaded, IsAccurate}
use pimlex_fast.Host.Find.{get_request-finds}
use pimlex_fast.Host.Store.{IsStored, insert_payload-IsStored}
use pimlex_fast.Host.Resend.{insert_payload_skew, insert_payload_skew-IsStored}
use pimlex_fast.Host.Index.{place, scan_block}
use pimlex_fast.Host.Requests.{val, slot_hit}
use pimlex_fast.Host.Mix.{mix_request, mix_near, write_payload}
use pimlex_fast.Host.Batches.{run_requests, run_dpus, mix_payload}
use pimlex_fast.Host.Keeps.{Keeps}
use pimlex_fast.Host.Mixed.{mix_payload-Keeps}
use pimlex_fast.Host.Scan.{walk, scan_request}
use pimlex_fast.Host.Scan.Collected.{Collected}

abbrev pub steps : ℕ → ℕ → List ℕ
steps x zero = []
steps x (suc n) = x ∷ steps (x + 48) n

pub length-steps : (x n : ℕ) → length (steps x n) ≡ n
length-steps x zero = refl
length-steps x (suc n) = omega (arith, length-steps (x + 48) n)

pub get_or-steps : (x n p : ℕ) → p < n → get_or (steps x n) p 0 ≡ x + 48 * p
get_or-steps x zero p h = absurd (omega arith)
get_or-steps x (suc n) zero h = omega arith
get_or-steps x (suc n) (suc p) h = omega (arith, get_or-steps (x + 48) n p (omega arith))

abbrev pub empty_page : BufPage
empty_page = record { lock_ = 0; cells = [] }

abbrev pub threes : Index
threes = record {
  keys = λ i. 3 * i;
  payloads = λ i. string_payload i;
  total_size = 2048;
  partial_keys = λ i. 24 * i;
  partial_total_size = 256;
  buffer_pages = λ i. empty_page;
  opt_overflow_trees = λ i. leaf 0 (1 ∷ []);
  upper_dram_level = record {
    low_bound_key = steps 0 128;
    start_dpu_id = [];
    nr_replicas_per_partition = [];
    dpu_id_to_partition = λ i. i;
  };
  lock_arr = λ i. 0;
}

pub threes-IsLoaded : IsLoaded threes
threes-IsLoaded = record {
  sorted = λ i j p q r. omega arith;
  sampled = λ i h. omega arith;
  whole = omega arith;
  small = omega arith;
  slices = omega arith;
  partitions = length-steps 0 128;
  bounds = λ p h. omega (arith, get_or-steps 0 128 p h);
}

-- A PGM-index that leaves the whole slice to the bisection.
abbrev pub whole_slice : ℕ → ℕ → ℕ × ℕ
whole_slice p key = (0, 2)

pub whole_slice-IsAccurate : IsAccurate whole_slice threes
whole_slice-IsAccurate p key c h b = (omega arith, omega (arith, b.upto))

pub empty_page-IsValid : IsValid empty_page
empty_page-IsValid = record { few = omega arith; sorted = λ i j p q r. absurd (omega arith) }

pub threes-IsStored : IsStored threes
threes-IsStored = record { pages = λ i. empty_page-IsValid; blocks = λ i. tt }

get_request-finds_example :
    get_request whole_slice true 7
      (record { key = 3000; slot = invaild_pos })
      (string_payload 1, threes)
    ≡ some (string_payload 1000, threes)
get_request-finds_example =
    get_request-finds threes threes-IsLoaded whole_slice whole_slice-IsAccurate 1000 (omega arith)
      (omega arith) 7 invaild_pos (string_payload 1)

abbrev one_each : ℕ → List Request
one_each i = record { key = 3001; slot = 1000 } ∷ []

insert_payload-IsStored_example : IsStored (insert_payload whole_slice one_each threes)
insert_payload-IsStored_example =
    insert_payload-IsStored whole_slice one_each threes threes-IsStored

insert_payload_skew-IsStored_example :
    IsStored (insert_payload_skew whole_slice (λ p. true) one_each (3 ∷ 1 ∷ []) (threes, λ j. [])).0
insert_payload_skew-IsStored_example =
    insert_payload_skew-IsStored whole_slice (λ p. true) one_each (3 ∷ 1 ∷ []) (threes, λ j. [])
      threes-IsStored

-- A scan of 3000 up to 3010, with 4 keys of the array and none of the empty pages.
scan_run :
    scan_request threes (record { key = 3000; slot = 1000 }) 3010
    ≡ some (3000 ∷ 3003 ∷ 3006 ∷ 3009 ∷ [])
unfolding scan_request walk
scan_run = refl

-- An insertion, a get and an update, of which the first DPU gets none.
abbrev mixed : ℕ → List (ℕ × Request)
mixed zero = []
mixed (suc i) =
    (2, record { key = 3001; slot = 1000 })
    ∷ (0, record { key = 3000; slot = 1000 })
    ∷ (1, record { key = 3000; slot = 1000 })
    ∷ []

abbrev mixed_through : Index
mixed_through = write_payload (place val threes 3 125 3001) 1000 1000

mix_run :
    mix_payload whole_slice (3 ∷ 0 ∷ []) mixed (string_payload 1, threes)
    ≡ some (string_payload 1000, mixed_through)
unfolding mix_payload run_dpus run_requests mix_request slot_hit scan_block mix_near place
    insert_page
mix_run = refl

mix_payload-Keeps_example : Keeps threes mixed_through
mix_payload-Keeps_example =
    mix_payload-Keeps whole_slice (3 ∷ 0 ∷ []) mixed (string_payload 1) (string_payload 1000) threes
      mixed_through threes-IsStored mix_run
