-- ===== src/Dpu/Lookup.antt =====
-- What the DPU answers to one query.
use pimlex_fast.Base.{
  ℕ, zero, suc, ◌+◌, ◌-◌, ◌*◌, ◌%◌, ◌^◌, ◌≤◌, ◌<◌, ◌≡◌, ◌≢◌, false, ◌&&◌, arith, ltb, leb,
  if◌then◌else◌, dec_lt, dec_le, lt→ltb, le→ltb, le→leb, lt→leb, ==-false, ==_iff, ℕ_discrete, ◌⊎◌,
  inl, inr,
}
use pimlex_fast.Search.{upper_bound}
use pimlex_fast.Search.Bound.{SortedOn, IsBound, upper_bound-IsBound, IsBound-unique}
use pimlex_fast.Dpu.Defs.{DpuArguments, invaild_pos, scan_forward, locate, last_index}

-- The position in the host's key array that stands for the sampled key `i` of the partition.
abbrev pub slot_of : DpuArguments → ℕ → ℕ
slot_of a i = (a.start_pos + i) * 8

module _ (mram : ℕ → ℕ) (before : ℕ) (a : DpuArguments) (key : ℕ) where
  -- The sampled keys of the partition ascend, and the positions fit the answer's 32 bits, below
  -- the mark for a miss.
  pub record IsLoaded : Type 0 where
    pub some_key : 0 < a.input_size
    pub sorted : SortedOn mram 0 a.input_size
    pub fits : (a.start_pos + a.input_size) * 8 < invaild_pos

  -- The window keeps the index `p` that splits the sampled keys at the key.
  pub record Covers (l r p : ℕ) : Type 0 where
    pub left : l ≤ p
    pub right : p ≤ r
    pub inside : r ≤ a.input_size
    pub split : IsBound mram key 0 a.input_size p

  module _ (loaded : IsLoaded) where
    slot-exact :
        (p : ℕ)
        → 0 < p
        → p ≤ a.input_size
        → (p + a.start_pos + 2 ^ 64 - 1) % 2 ^ 32 * 8 % 2 ^ 32 ≡ slot_of a (p - 1)
    slot-exact p h k = omega (arith, loaded.fits)

    window_bound : (l r p : ℕ) → Covers l r p → upper_bound mram key l r ≡ p
    window_bound l r p c =
        IsBound-unique
          (upper_bound-IsBound mram key l r (omega (arith, c.left, c.right))
            (λ i j u v w. loaded.sorted i j (omega arith) v (omega (arith, c.inside))))
          (record {
            from = c.left;
            upto = c.right;
            below = λ i u v. c.split.below i (omega arith) v;
            above = λ i u v. c.split.above i u (omega (arith, c.inside));
          })

    -- On a loaded partition, with a window that keeps the splitting index `p`, which is not 0: the DPU
    -- answers the position of the last sampled key up to the query, `p - 1`, or a miss if that is
    -- the last sampled key of the partition.
    pub locate_exact :
        (l r p : ℕ)
        → Covers l r p
        → 0 < p
        → locate mram before a key l r
          ≡ (if ltb p a.input_size then slot_of a (p - 1) else invaild_pos)
    unfolding locate
    locate_exact l r p c h = elim (dec_lt p a.input_size) [
      | yes q ↦
          rw
            (
              locate,
              window_bound l r p c,
              lt→ltb p a.input_size q,
              le→ltb (last_index a) p (omega (arith, loaded.fits)),
              ==-false p 0 (omega arith),
              le→leb (mram (p - 1)) key (c.split.below (p - 1) (omega arith) (omega arith)),
              lt→ltb key (mram p) (c.split.above p (omega arith) q),
            )
            (slot-exact p h (omega arith))
      | no q ↦ rw (
        locate,
        window_bound l r p c,
        le→ltb p a.input_size (omega arith),
        lt→ltb (last_index a) p (omega (arith, loaded.some_key, loaded.fits)),
      )
    ]

    off_window :
        (l r : ℕ)
        → upper_bound mram key l r ≤ a.input_size
        → upper_bound mram key l r ≤ last_index a
        → 0 < upper_bound mram key l r
        → locate mram before a key l r ≢ invaild_pos
        → (leb (mram (upper_bound mram key l r - 1)) key
            && ltb key (mram (upper_bound mram key l r)))
          ≡ false
        → (i : ℕ) × (locate mram before a key l r ≡ slot_of a i)
          × (suc i < a.input_size)
          × ((suc (suc i) ≡ a.input_size) ⊎ ((mram i ≤ key) × (key < mram (suc i))))
    unfolding locate
    off_window l r b q h hit off =
        let p : ℕ = upper_bound mram key l r in
        elim (ℕ_discrete p (last_index a)) [
          | yes e ↦ (
            p - 1,
            rw
                (
                  locate,
                  le→ltb (last_index a) p q,
                  ==-false p 0 (omega arith),
                  off,
                  (==_iff p (last_index a)).1 e,
                )
                (slot-exact p h b),
            omega (arith, loaded.some_key, loaded.fits),
            inl (omega (arith, loaded.some_key, loaded.fits)),
          )
          | no ne ↦ absurd (
              hit (
                rw (
                  locate,
                  le→ltb (last_index a) p q,
                  ==-false p 0 (omega arith),
                  off,
                  ==-false p (last_index a) ne,
                )))
        ]

    sound_at :
        (l r : ℕ)
        → upper_bound mram key l r ≤ a.input_size
        → upper_bound mram key l r ≤ last_index a
        → 0 < upper_bound mram key l r
        → locate mram before a key l r ≢ invaild_pos
        → (i : ℕ) × (locate mram before a key l r ≡ slot_of a i)
          × (suc i < a.input_size)
          × ((suc (suc i) ≡ a.input_size) ⊎ ((mram i ≤ key) × (key < mram (suc i))))
    unfolding locate
    sound_at l r b q h hit =
        let p : ℕ = upper_bound mram key l r in
        let k : suc (p - 1) ≡ p = omega arith in
        let slot = slot-exact p h b in
        elim (dec_le (mram (p - 1)) key) [
          | yes u ↦ elim (dec_lt key (mram p)) [
            | yes v ↦ (
              p - 1,
              rw
                  (
                    locate,
                    le→ltb (last_index a) p q,
                    ==-false p 0 (omega arith),
                    le→leb (mram (p - 1)) key u,
                    lt→ltb key (mram p) v,
                  )
                  slot,
              omega (arith, loaded.some_key, loaded.fits),
              inr (u, rw k v),
            )
            | no v ↦
                off_window l r b q h hit
                  (rw (le→leb (mram (p - 1)) key u, le→ltb key (mram p) (omega arith)))
          ]
          | no u ↦ off_window l r b q h hit (rw (lt→leb (mram (p - 1)) key (omega arith)))
        ]

    -- On a loaded partition, whatever the window in it, where the bisection does not stop at 0: an
    -- answer that is no miss is a slot of the partition other than the last; and unless it is the
    -- last but one, it is the slot of the last sampled key up to the query, so a wrong prediction
    -- of the models is found out.
    pub locate_sound :
        (l r : ℕ)
        → l ≤ r
        → r ≤ a.input_size
        → locate mram before a key l r ≢ invaild_pos
        → 0 < upper_bound mram key l r
        → (i : ℕ) × (locate mram before a key l r ≡ slot_of a i)
          × (suc i < a.input_size)
          × ((suc (suc i) ≡ a.input_size) ⊎ ((mram i ≤ key) × (key < mram (suc i))))
    unfolding locate
    locate_sound l r lr rn hit some_slot =
        let p : ℕ = upper_bound mram key l r in
        let b : p ≤ a.input_size = omega (
          arith,
          (upper_bound-IsBound mram key l r lr
              (λ i j u v w. loaded.sorted i j (omega arith) v (omega arith))).upto,
          rn,
        ) in
        elim (dec_lt (last_index a) p) [
          | yes q ↦ absurd (hit (rw (locate, lt→ltb (last_index a) p q)))
          | no q ↦ sound_at l r b (omega arith) some_slot hit
        ]

-- The scan of a level stops at the last model of a run of models that start up to the query.
pub scan_forward_lem :
    (at : ℕ → ℕ) (last k fuel cur : ℕ)
    → last - cur ≤ fuel
    → (cur ≤ scan_forward at last k fuel cur)
      × ((i : ℕ) → cur < i → i ≤ scan_forward at last k fuel cur → (i < last) × (at i ≤ k))
      × (scan_forward at last k fuel cur + 1 < last → k < at (scan_forward at last k fuel cur + 1))
unfolding scan_forward
scan_forward_lem at last k zero cur h =
    (omega arith, λ i p q. absurd (omega arith), λ p. absurd (omega arith))
scan_forward_lem at last k (suc fuel) cur h = elim (dec_lt (cur + 1) last) [
  | no q ↦
      rw (scan_forward, le→ltb (cur + 1) last (omega arith))
        (omega arith, λ i u v. absurd (omega arith), λ u. absurd (omega arith))
  | yes q ↦ elim (dec_le (at (cur + 1)) k) [
    | no s ↦
        rw (scan_forward, lt→ltb (cur + 1) last q, lt→leb (at (cur + 1)) k (omega arith))
          (omega arith, λ i u v. absurd (omega arith), λ u. omega arith)
    | yes s ↦
        let ih = scan_forward_lem at last k fuel (cur + 1) (omega arith) in
        rw (scan_forward, lt→ltb (cur + 1) last q, le→leb (at (cur + 1)) k s)
          (
            omega (arith, ih.0),
            λ i u v. elim (ℕ_discrete i (cur + 1)) [
              | yes e ↦ rw e (q, s)
              | no ne ↦ ih.1 i (omega arith) v
            ],
            ih.2,
          )
  ]
]
