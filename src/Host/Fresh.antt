-- ===== src/Host/Fresh.antt =====
-- A freshly loaded index: the arrays agree with each other, and the trees are ordered.
use pimlex_fast.Base.{
  ℕ, zero, suc, ◌+◌, ◌*◌, ◌/◌, ◌^◌, ◌≤◌, ◌<◌, ◌≡◌, refl, ap, ◌∙◌, arith, length, get_or,
}
use pimlex_fast.Search.Lower.{StrictOn}
use pimlex_fast.Page.{BufPage}
use pimlex_fast.Tree.Ordered.{Ordered}
use pimlex_fast.Routing.Defs.{get_start_dpu_id}
use pimlex_fast.Host.Index.{Index}
use pimlex_fast.Host.Bound.{IsLoaded}
use pimlex_fast.Host.Sampling.{sample_loop, sample_loop-reaches}
use pimlex_fast.Host.Bulk.{low_bounds, bulk_load_for_dpu}

pub length-low_bounds :
    (partial_keys : ℕ → ℕ) (per start n : ℕ) → length (low_bounds partial_keys per start n) ≡ n
length-low_bounds partial_keys per start zero = refl
length-low_bounds partial_keys per start (suc n) =
    ap suc (length-low_bounds partial_keys per (start + per) n)

pub low_bounds_lem :
    (partial_keys : ℕ → ℕ) (per start n p : ℕ)
    → p < n
    → get_or (low_bounds partial_keys per start n) p 0 ≡ partial_keys (start + per * p)
low_bounds_lem partial_keys per start zero p h = absurd (omega arith)
low_bounds_lem partial_keys per start (suc n) zero h =
    let e : start + per * 0 ≡ start = omega arith in rw e refl
low_bounds_lem partial_keys per start (suc n) (suc p) h =
    let e : start + per * suc p ≡ start + per + per * p = omega arith in
    rw e (low_bounds_lem partial_keys per (start + per) n p (omega arith))

pub bulk_load_for_dpu-IsLoaded :
    (behind : ℕ → BufPage) (sorted : ℕ → ℕ) (n : ℕ) (partial_keys : ℕ → ℕ) (d : Index)
    → StrictOn sorted 0 n
    → 1024 ≤ n
    → n + 8 ≤ 2 ^ 31
    → IsLoaded (bulk_load_for_dpu behind sorted n partial_keys d)
unfolding bulk_load_for_dpu get_start_dpu_id
bulk_load_for_dpu-IsLoaded behind sorted n partial_keys d s h k =
    let partial : ℕ → ℕ = sample_loop sorted n n 0 0 partial_keys in
    record {
      sorted = s;
      sampled = λ i l.
          sample_loop-reaches sorted n n 0 0 i partial_keys (omega (arith, k)) (omega arith)
            (omega arith) (omega (arith, l)) (omega arith);
      whole = omega arith;
      small = omega (arith, k);
      slices = omega (arith, h);
      partitions = length-low_bounds partial (n / 8 / 128) 0 128;
      bounds = λ p l. low_bounds_lem partial (n / 8 / 128) 0 128 p l ∙ ap partial (omega arith);
    }
