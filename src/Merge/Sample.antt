-- ===== src/Merge/Sample.antt =====
-- The sampled keys of the new array: every eighth one, whatever order the threads run in.
use native.Mathlib.Nat.{mul-le-mul_left}
use pimlex_fast.Base.{
  ℕ, ◌+◌, ◌*◌, ◌/◌, ◌%◌, ◌^◌, ℕ_discrete, ◌≡◌, ◌≤◌, ◌<◌, arith, List, [], ◌∷◌, dec_lt, ==-false,
}
use pimlex_fast.Page.{Entry}
use pimlex_fast.Host.Sampling.{Sampled, sample_loop-keeps, sample_loop-reaches}
use pimlex_fast.Dpu.Tasklets.{Occurs, here, there, which}
use pimlex_fast.Merge.Defs.{merge_thread_num}
use pimlex_fast.Merge.Install.{processing_num_keys, end_processing, sample_thread, sample_threads}

share_mono : (c tid : ℕ) → tid ≤ 31 → c * tid ≤ c * 31
share_mono c tid h = mul-le-mul_left c h

module _ (n : ℕ) (new : ℕ → Entry) (small : n + 8 ≤ 2 ^ 31) where
  abbrev key_of : ℕ → ℕ
  key_of i = (new i).buf_key

  -- A thread starts at a multiple of 8.
  aligned : (tid : ℕ) → processing_num_keys n * tid ≡ processing_num_keys n * tid / 8 * 8
  aligned tid =
      let k : ℕ = n / 32 / 8 in
      let e : processing_num_keys n ≡ k * 8 = omega arith in
      let f : k * 8 * tid ≡ k * tid * 8 = omega arith in rw (e, f) (omega arith)

  -- It starts inside the array, and ends there.
  inside : (tid : ℕ) → tid < merge_thread_num → processing_num_keys n * tid ≤ n
  inside tid h = let c : ℕ = processing_num_keys n in omega (arith, share_mono c tid (omega arith))

  end_inside : (tid : ℕ) → tid < merge_thread_num → end_processing n tid ≤ n
  end_inside tid h = elim (ℕ_discrete tid 31) [
    | yes e ↦ rw e (omega arith)
    | no ne ↦ rw (==-false tid 31 ne) (omega (arith, inside (tid + 1) (omega (arith, ne))))
  ]

  start_small :
      (tid : ℕ)
      → tid < merge_thread_num
      → processing_num_keys n * tid % 2 ^ 32 ≡ processing_num_keys n * tid
  start_small tid h = omega (arith, inside tid h)

  sample_thread-keeps :
      (tid i : ℕ) (partial_keys : ℕ → ℕ)
      → tid < merge_thread_num
      → Sampled key_of partial_keys i
      → Sampled key_of (sample_thread n new tid partial_keys) i
  unfolding sample_thread
  sample_thread-keeps tid i partial_keys h r =
      rw (sample_thread, start_small tid h)
        (sample_loop-keeps key_of (end_processing n tid) n (processing_num_keys n * tid / 8)
          (processing_num_keys n * tid) i partial_keys (omega (arith, end_inside tid h))
          (omega (arith, inside tid h)) (aligned tid) r)

  sample_thread-reaches :
      (tid i : ℕ) (partial_keys : ℕ → ℕ)
      → tid < merge_thread_num
      → processing_num_keys n * tid ≤ i * 8
      → i * 8 < end_processing n tid
      → end_processing n tid ≤ processing_num_keys n * tid + n
      → Sampled key_of (sample_thread n new tid partial_keys) i
  unfolding sample_thread
  sample_thread-reaches tid i partial_keys t h k l =
      rw (sample_thread, start_small tid t)
        (sample_loop-reaches key_of (end_processing n tid) n (processing_num_keys n * tid / 8)
          (processing_num_keys n * tid) i partial_keys (omega (arith, end_inside tid t))
          (aligned tid) (omega (arith, aligned tid)) k l)

  sample_threads-keep :
      (tids : List ℕ) (i : ℕ) (partial_keys : ℕ → ℕ)
      → ((t : ℕ) → Occurs t tids → t < merge_thread_num)
      → Sampled key_of partial_keys i
      → Sampled key_of (sample_threads n new tids partial_keys) i
  unfolding sample_threads
  sample_threads-keep [] i partial_keys few r = r
  sample_threads-keep (tid ∷ tids) i partial_keys few r =
      sample_threads-keep tids i (sample_thread n new tid partial_keys) (λ t o. few t (there o))
        (sample_thread-keeps tid i partial_keys (few tid here) r)

  sample_threads-reach :
      (tid : ℕ) (tids : List ℕ) (i : ℕ) (partial_keys : ℕ → ℕ)
      → ((t : ℕ) → Occurs t tids → t < merge_thread_num)
      → Occurs tid tids
      → processing_num_keys n * tid ≤ i * 8
      → i * 8 < end_processing n tid
      → end_processing n tid ≤ processing_num_keys n * tid + n
      → Sampled key_of (sample_threads n new tids partial_keys) i
  unfolding sample_threads
  sample_threads-reach tid [] i partial_keys few o h k l = elim o [ ]
  sample_threads-reach tid (_ ∷ tids) i partial_keys few here h k l =
      sample_threads-keep tids i (sample_thread n new tid partial_keys) (λ t o. few t (there o))
        (sample_thread-reaches tid i partial_keys (few tid here) h k l)
  sample_threads-reach tid (u ∷ tids) i partial_keys few (there o) h k l =
      sample_threads-reach tid tids i (sample_thread n new u partial_keys) (λ t p. few t (there p))
        o h k l

  share_of :
      (i : ℕ)
      → i * 8 < n
      → (t : ℕ) × (t < merge_thread_num)
        × (processing_num_keys n * t ≤ i * 8)
        × (i * 8 < end_processing n t)
        × (end_processing n t ≤ processing_num_keys n * t + n)
  share_of i h =
      let c : ℕ = processing_num_keys n in
      elim (dec_lt (i * 8) (31 * c)) [
        | yes k ↦
            let w = which c (i * 8) 31 k in
            let other = ==-false w.0 31 (omega (arith, w.1)) in
            (
              w.0,
              omega (arith, w.1),
              omega (arith, w.2),
              rw other (omega (arith, w.3)),
              rw other (omega arith),
            )
        | no k ↦ (31, omega arith, omega arith, h, omega arith)
      ]

  -- When all threads have run, in whatever order, on at most 2^31 - 8 keys, the sampled key `i` is the key at `8 * i`.
  pub sample_threads-sampled :
      (tids : List ℕ) (partial_keys : ℕ → ℕ) (i : ℕ)
      → ((t : ℕ) → Occurs t tids → t < merge_thread_num)
      → ((t : ℕ) → t < merge_thread_num → Occurs t tids)
      → i * 8 < n
      → sample_threads n new tids partial_keys i ≡ (new (i * 8)).buf_key
  sample_threads-sampled tids partial_keys i few all h =
      let s = share_of i h in
      sample_threads-reach s.0 tids i partial_keys few (all s.0 s.1) s.2 s.3 s.4
