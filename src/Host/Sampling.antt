-- ===== src/Host/Sampling.antt =====
-- The loop that stores every eighth key of an array: in the bulk load, and in the threads of a merge.
use pimlex_fast.Base.{
  ℕ, zero, suc, ◌+◌, ◌-◌, ◌*◌, ◌%◌, ◌^◌, ◌≤◌, ◌<◌, ◌≡◌, refl, arith, ltb, if◌then◌else◌, dec_lt,
  ℕ_discrete, lt→ltb, le→ltb, ==_iff, ==-false,
}
use pimlex_fast.Dpu.Defs.{write}
use pimlex_fast.Host.Index.{interleave}

-- An `int`, given by its 32 bits, as the uint64_t that it is compared with.
abbrev pub as_uint64 : ℕ → ℕ
as_uint64 p = if ltb p (2 ^ 31) then p else p + 2 ^ 64 - 2 ^ 32

-- The loop over the positions from `p` up to `end`, with at most `rounds` rounds. `p` is an `int`: where it
-- overflows, which the language leaves undefined, it wraps.
unfoldable pub sample_loop : (ℕ → ℕ) → ℕ → ℕ → ℕ → ℕ → (ℕ → ℕ) → ℕ → ℕ
sample_loop keys end zero off p partial_keys = partial_keys
sample_loop keys end (suc rounds) off p partial_keys =
    let rest =
      sample_loop keys end rounds (off + 1) ((p + interleave) % 2 ^ 32)
        (write partial_keys off (keys p)) in
    if ltb (as_uint64 p) end then rest else partial_keys

module _ (keys : ℕ → ℕ) where
  -- The sampled key `i` is the key at position `8 * i`.
  abbrev pub Sampled : (ℕ → ℕ) → ℕ → Type 0
  Sampled partial_keys i = partial_keys i ≡ keys (i * 8)

  write-Sampled :
      (off p i : ℕ) (partial_keys : ℕ → ℕ)
      → p ≡ off * 8
      → Sampled partial_keys i
      → Sampled (write partial_keys off (keys p)) i
  write-Sampled off p i partial_keys e r = elim (ℕ_discrete i off) [
    | yes same ↦ rw ((==_iff i off).1 same, e, same) refl
    | no other ↦ rw (==-false i off other) r
  ]

  -- A round with the counter inside, and the end of the loop.
  sample_loop_more :
      (end rounds off p : ℕ) (partial_keys : ℕ → ℕ)
      → end + 8 ≤ 2 ^ 31
      → p < end
      → sample_loop keys end (suc rounds) off p partial_keys
        ≡ sample_loop keys end rounds (off + 1) (p + 8) (write partial_keys off (keys p))
  unfolding sample_loop
  sample_loop_more end rounds off p partial_keys few h =
      let next : (p + 8) % 2 ^ 32 ≡ p + 8 = omega arith in
      rw (sample_loop, lt→ltb p (2 ^ 31) (omega arith), lt→ltb p end h, next) refl

  sample_loop_end :
      (end rounds off p : ℕ) (partial_keys : ℕ → ℕ)
      → p < 2 ^ 31
      → end ≤ p
      → sample_loop keys end (suc rounds) off p partial_keys ≡ partial_keys
  unfolding sample_loop
  sample_loop_end end rounds off p partial_keys small h =
      rw (sample_loop, lt→ltb p (2 ^ 31) small, le→ltb p end h) refl

  pub sample_loop-keeps :
      (end rounds off p i : ℕ) (partial_keys : ℕ → ℕ)
      → end + 8 ≤ 2 ^ 31
      → p < 2 ^ 31
      → p ≡ off * 8
      → Sampled partial_keys i
      → Sampled (sample_loop keys end rounds off p partial_keys) i
  unfolding sample_loop
  sample_loop-keeps end zero off p i partial_keys few small e r = r
  sample_loop-keeps end (suc rounds) off p i partial_keys few small e r = elim (dec_lt p end) [
    | yes h ↦ rw (sample_loop_more end rounds off p partial_keys few h) (
        sample_loop-keeps end rounds (off + 1) (p + 8) i (write partial_keys off (keys p)) few
          (omega arith) (omega (arith, e)) (write-Sampled off p i partial_keys e r))
    | no h ↦ rw (sample_loop_end end rounds off p partial_keys small (omega arith)) r
  ]

  pub sample_loop-reaches :
      (end rounds off p i : ℕ) (partial_keys : ℕ → ℕ)
      → end + 8 ≤ 2 ^ 31
      → p ≡ off * 8
      → off ≤ i
      → i * 8 < end
      → end ≤ p + rounds
      → Sampled (sample_loop keys end rounds off p partial_keys) i
  sample_loop-reaches end zero off p i partial_keys few e h k l = absurd (omega arith)
  sample_loop-reaches end (suc rounds) off p i partial_keys few e h k l =
      let next : ℕ → ℕ = write partial_keys off (keys p) in
      let inside : p < end = omega arith in
      rw (sample_loop_more end rounds off p partial_keys few inside) (elim (ℕ_discrete i off) [
        | yes same ↦
            sample_loop-keeps end rounds (off + 1) (p + 8) i next few (omega arith)
              (omega (arith, e)) (rw ((==_iff i off).1 same, e, same) refl)
        | no other ↦
            sample_loop-reaches end rounds (off + 1) (p + 8) i next few (omega (arith, e))
              (omega arith) k (omega arith)
      ])
