-- ===== src/Dpu/Tasklets.antt =====
-- How the tasklets of a DPU share the queries of a batch.
use pimlex_fast.Base.{
  ℕ, zero, suc, ◌+◌, ◌-◌, ◌*◌, ◌/◌, ◌%◌, ◌≤◌, ◌<◌, ◌≡◌, refl, List, [], ◌∷◌, arith, dec_lt, dec_le,
  ◌==◌, ==-false, ==_iff, if◌then◌else◌, ℕ_discrete, ◌⊎◌, inl, inr, Bool-cases, ◌∙◌,
}
use pimlex_fast.Dpu.Defs.{first_query, total_ops, answer_from, run_tasklet, run_tasklets, write}

-- `t` stands in the list.
pub data Occurs (t : ℕ) : List ℕ → Type 0 where
  here : {ts : List ℕ} → Occurs t (t ∷ ts)
  there : {u : ℕ} {ts : List ℕ} → Occurs t ts → Occurs t (u ∷ ts)

down_upto : (x : ℕ) → (if x % 2 == 0 then x else x - 1) ≤ x
down_upto x = elim (Bool-cases (x % 2 == 0)) [
  | inl h ↦ rw h (omega arith)
  | inr h ↦ rw h (omega arith)
]

upto_up : (x : ℕ) → x ≤ (if x % 2 == 0 then x else x + 1)
upto_up x = elim (Bool-cases (x % 2 == 0)) [
  | inl h ↦ rw h (omega arith)
  | inr h ↦ rw h (omega arith)
]

covers_chunk :
    (cur c : ℕ)
    → cur + c ≤ (if cur % 2 == 0 then cur else cur - 1) + (if cur % 2 == 0 then c else c + 1)
covers_chunk cur c = elim (Bool-cases (cur % 2 == 0)) [
  | inl h ↦ rw h (omega arith)
  | inr h ↦ rw h (omega arith)
]

-- The multiple of `c` below `q`.
pub which : (c q n : ℕ) → q < n * c → (t : ℕ) × (t < n) × (t * c ≤ q) × (q < t * c + c)
which c q zero h = absurd (omega (arith, h))
which c q (suc n) h = elim (dec_le (n * c) q) [
  | yes k ↦ (n, omega arith, k, omega (arith, h))
  | no k ↦ let w = which c q n (omega arith) in (w.0, omega (arith, w.1), w.2, w.3)
]

module _ (nr_tasklets num_task : ℕ) (some_tasklet : 0 < nr_tasklets) where
  abbrev chunk : ℕ
  chunk = num_task / nr_tasklets

  first_query-upto : (t : ℕ) → first_query nr_tasklets num_task t ≤ t * chunk
  unfolding first_query
  first_query-upto t = down_upto (t * chunk)

  inner_covers :
      (t q : ℕ)
      → suc t < nr_tasklets
      → t * chunk ≤ q
      → q < t * chunk + chunk
      → q < first_query nr_tasklets num_task t + total_ops nr_tasklets num_task t
  unfolding first_query total_ops
  inner_covers t q h k l =
      let cur : ℕ = t * chunk in
      let ops : ℕ = if cur % 2 == 0 then chunk else chunk + 1 in
      rw (==-false t (nr_tasklets - 1) (omega arith))
        (omega (arith, covers_chunk cur chunk, upto_up ops))

  last_covers :
      (t q : ℕ)
      → suc t ≡ nr_tasklets
      → q < num_task
      → q < first_query nr_tasklets num_task t + total_ops nr_tasklets num_task t
  unfolding first_query total_ops
  last_covers t q h k =
      let first : ℕ = first_query nr_tasklets num_task t in
      rw ((==_iff t (nr_tasklets - 1)).1 (omega arith)) (omega (arith, upto_up (num_task - first)))

  -- Every query of the batch falls to a tasklet.
  pub covered :
      (q : ℕ)
      → q < num_task
      → (t : ℕ) × (t < nr_tasklets)
        × (first_query nr_tasklets num_task t ≤ q)
        × (q < first_query nr_tasklets num_task t + total_ops nr_tasklets num_task t)
  covered q h =
      let last : ℕ = nr_tasklets - 1 in
      elim (dec_le (last * chunk) q) [
        | yes k ↦ (
          last,
          omega arith,
          omega (arith, first_query-upto last, k),
          last_covers last q (omega arith) h,
        )
        | no k ↦
            let w = which chunk q last (omega arith) in
            (
              w.0,
              omega (arith, w.1),
              omega (arith, first_query-upto w.0, w.2),
              inner_covers w.0 q (omega (arith, w.1)) w.2 w.3,
            )
      ]

module _ (answer sbuffer : ℕ → ℕ) where
  -- One run of queries writes the answers of its range and nothing else.
  answer_from_out :
      (n cur : ℕ) (rbuffer : ℕ → ℕ) (j : ℕ)
      → (j < cur) ⊎ (cur + n ≤ j)
      → answer_from answer sbuffer n cur rbuffer j ≡ rbuffer j
  unfolding answer_from
  answer_from_out zero cur rbuffer j h = refl
  answer_from_out (suc n) cur rbuffer j h = rw (
    answer_from_out n (cur + 1) (write rbuffer cur (answer (sbuffer cur))) j (ground (arith, h)),
    ==-false j cur (ground (arith, h)),
  )

  answer_from_in :
      (n cur : ℕ) (rbuffer : ℕ → ℕ) (j : ℕ)
      → cur ≤ j
      → j < cur + n
      → answer_from answer sbuffer n cur rbuffer j ≡ answer (sbuffer j)
  unfolding answer_from
  answer_from_in zero cur rbuffer j h k = absurd (omega arith)
  answer_from_in (suc n) cur rbuffer j h k = elim (ℕ_discrete j cur) [
    | yes e ↦ rw (
      answer_from_out n (cur + 1) (write rbuffer cur (answer (sbuffer cur))) j (inl (omega arith)),
      (==_iff j cur).1 e,
      e,
    )
    | no ne ↦
        answer_from_in n (cur + 1) (write rbuffer cur (answer (sbuffer cur))) j (omega arith)
          (omega arith)
  ]

  module _ (nr_tasklets num_task : ℕ) where
    run_tasklet_keeps :
        (t : ℕ) (rbuffer : ℕ → ℕ) (q : ℕ)
        → rbuffer q ≡ answer (sbuffer q)
        → run_tasklet answer sbuffer nr_tasklets num_task t rbuffer q ≡ answer (sbuffer q)
    unfolding run_tasklet
    run_tasklet_keeps t rbuffer q e = elim (dec_lt q (first_query nr_tasklets num_task t)) [
      | yes h ↦
          answer_from_out (total_ops nr_tasklets num_task t) (first_query nr_tasklets num_task t)
            rbuffer q (inl h)
          ∙ e
      | no h ↦
          elim (dec_lt q (first_query nr_tasklets num_task t + total_ops nr_tasklets num_task t)) [
            | yes k ↦
                answer_from_in (total_ops nr_tasklets num_task t)
                  (first_query nr_tasklets num_task t) rbuffer q (omega arith) k
            | no k ↦
                answer_from_out (total_ops nr_tasklets num_task t)
                  (first_query nr_tasklets num_task t) rbuffer q (inr (omega arith))
                ∙ e
          ]
    ]

    run_tasklets_keep :
        (ts : List ℕ) (rbuffer : ℕ → ℕ) (q : ℕ)
        → rbuffer q ≡ answer (sbuffer q)
        → run_tasklets answer sbuffer nr_tasklets num_task ts rbuffer q ≡ answer (sbuffer q)
    unfolding run_tasklets
    run_tasklets_keep [] rbuffer q e = e
    run_tasklets_keep (t ∷ ts) rbuffer q e =
        run_tasklets_keep ts (run_tasklet answer sbuffer nr_tasklets num_task t rbuffer) q
          (run_tasklet_keeps t rbuffer q e)

    run_tasklets_reach :
        (t q : ℕ) (ts : List ℕ) (rbuffer : ℕ → ℕ)
        → Occurs t ts
        → first_query nr_tasklets num_task t ≤ q
        → q < first_query nr_tasklets num_task t + total_ops nr_tasklets num_task t
        → run_tasklets answer sbuffer nr_tasklets num_task ts rbuffer q ≡ answer (sbuffer q)
    unfolding run_tasklets run_tasklet
    run_tasklets_reach t q [] rbuffer o h k = elim o [ ]
    run_tasklets_reach t q (_ ∷ ts) rbuffer here h k =
        run_tasklets_keep ts (run_tasklet answer sbuffer nr_tasklets num_task t rbuffer) q (
          answer_from_in (total_ops nr_tasklets num_task t) (first_query nr_tasklets num_task t)
            rbuffer q h k)
    run_tasklets_reach t q (u ∷ ts) rbuffer (there o) h k =
        run_tasklets_reach t q ts (run_tasklet answer sbuffer nr_tasklets num_task u rbuffer) o h k

    -- In whatever order the tasklets finish, when all of them have run, the receive buffer holds
    -- the answer to every query of the batch.
    pub run_tasklets-answer :
        0 < nr_tasklets
        → (ts : List ℕ) → ((t : ℕ) → t < nr_tasklets → Occurs t ts)
        → (rbuffer : ℕ → ℕ) (q : ℕ) → q < num_task
        → run_tasklets answer sbuffer nr_tasklets num_task ts rbuffer q ≡ answer (sbuffer q)
    run_tasklets-answer some_tasklet ts all rbuffer q h =
        let c = covered nr_tasklets num_task some_tasklet q h in
        run_tasklets_reach c.0 q ts rbuffer (all c.0 c.1) c.2 c.3
