-- ===== src/Examples/Loads.antt =====
-- A bulk load of 2,048 keys, and insertions into the index that is about to be merged.
use pimlex_fast.Base.{
  Bool, ltb, ◌-◌, if◌then◌else◌, ℕ, ◌+◌, ◌*◌, ◌^◌, ◌<◌, ◌≡◌, refl, arith, ℕ_discrete, ==-false,
}
use pimlex_fast.Page.{insert_page, released, position}
use pimlex_fast.Page.Insert.{IsValid}
use pimlex_fast.Search.{upper_bound, upper_bound_loop}
use pimlex_fast.Tree.Defs.{clear}
use pimlex_fast.Tree.Ordered.{Ordered}
use pimlex_fast.Host.Index.{Index, place}
use pimlex_fast.Host.Requests.{insert_request}
use pimlex_fast.Host.Epsilon.{
  fits, divides_by_zero, partition_epsilon, try_double, partition_epsilon_lem,
}
use pimlex_fast.Host.Load.{max_model_size}
use pimlex_fast.Host.Bulk.{bulk_load_for_dpu}
use pimlex_fast.Merge.Defs.{new_total_size}
use pimlex_fast.Merge.Chains.{IsMergeable}
use pimlex_fast.Merge.Cycle.{IsNew, insert_request-IsMergeable}
use pimlex_fast.Examples.Hosts.{threes}
use pimlex_fast.Examples.Merges.{merging, merging-IsLoaded, merging-IsMergeable, behind, trained}

abbrev pub unloaded : Index
unloaded = record threes { opt_overflow_trees = λ p. clear }

abbrev pub sorted : ℕ → ℕ
sorted i = 3 * i + 1

abbrev pub loaded : Index
loaded = bulk_load_for_dpu behind sorted 2048 (λ i. 0) unloaded

-- A slice whose number of models falls by one with each step of epsilon, so that the double of 1,024 fits.
abbrev falling : ℕ → ℕ
falling e = 4000 - e

abbrev above_2000 : ℕ → Bool
above_2000 n = ltb 2000 n

abbrev models : ℕ → ℕ
models n = n

fitted : partition_epsilon falling above_2000 models ltb 12 1024 ≡ fits 2048
unfolding partition_epsilon
fitted = refl

unfitted : partition_epsilon falling above_2000 models ltb 12 64 ≡ divides_by_zero
unfolding partition_epsilon
unfitted = refl

partition_epsilon_lem_example : partition_epsilon falling above_2000 models ltb 4096 1024 ≡ (
    if ltb max_model_size (falling (try_double falling above_2000 models ltb 1024).0)
    then divides_by_zero
    else fits (try_double falling above_2000 models ltb 1024).0)
partition_epsilon_lem_example =
    partition_epsilon_lem falling above_2000 models ltb (λ e h. omega arith) (λ a b. refl) 4096 1024
      (omega arith) (omega arith)

merging-IsValid : (i : ℕ) → i < 257 → IsValid (merging.buffer_pages i)
merging-IsValid i h = elim (ℕ_discrete i 5) [
  | yes e ↦ rw e (record {
    few = omega arith;
    sorted = λ i j p q r.
        let a : i ≡ 0 = omega arith in let b : j ≡ 0 = omega arith in rw (a, b) (omega arith);
  })
  | no ne ↦
      rw (==-false i 5 ne, ==-false i 257 (omega arith))
        (record { few = omega arith; sorted = λ i j p q r. absurd (omega arith) })
]

merging-IsNew : IsNew merging 122
merging-IsNew = (
  (λ i h e. omega (arith, e)),
  λ j h. elim (ℕ_discrete j 5) [
    | yes e ↦ rw e ((λ f. omega (arith, f)), tt)
    | no ne ↦ rw (==-false j 5 ne, ==-false j 257 (omega arith)) tt
  ],
)

small : new_total_size (insert_request trained 2 (record { key = 122; slot = 40 }) merging) < 2 ^ 32
unfolding insert_request place insert_page released position upper_bound upper_bound_loop
small = omega arith

insert_request-IsMergeable_example :
    IsMergeable (insert_request trained 2 (record { key = 122; slot = 40 }) merging)
insert_request-IsMergeable_example =
    insert_request-IsMergeable trained 2 (record { key = 122; slot = 40 }) merging merging-IsLoaded
      merging-IsMergeable merging-IsValid merging-IsNew small
