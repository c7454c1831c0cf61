-- ===== src/Lock/Progress.antt =====
-- That a thread can take the lock of an `ol_lock` after the one that holds it.
use pimlex_fast.Base.{
  ℕ, ◌-◌, ◌^◌, ◌≤◌, ◌<◌, ◌≡◌, ◌≢◌, refl, sym, ap, ◌∙◌, subst, false, arith, ◌⊎◌, inl, inr,
}
use pimlex_fast.Lock.{is_set, masked, acquired, release_lock}
use pimlex_fast.Lock.Exclusion.{
  Pc, Move, System, Move, Reach, Reach-Inv, holds-is_set, update, idle, spin, loaded, holding,
  releasing, get_lock, spin_free, cas_win, load_release, store_release,
}

-- Steps of the threads `i` and `j` only, one after the other.
pub data Steps (i j : ℕ) (s : System) : System → Type 0 where
  done : Steps i j s s
  further :
      {t : System} {w : ℕ} {p : Pc} (k : ℕ)
      → Steps i j s t
      → (k ≡ i) ⊎ (k ≡ j)
      → Move t.lock_ (t.pc k) w p
      → Steps i j s (record { lock_ = w; pc = update t.pc k p })

abbrev moved : System → ℕ → ℕ → Pc → System
moved s i w p = record { lock_ = w; pc = update s.pc i p }

update_self : (f : ℕ → Pc) (i : ℕ) (p : Pc) → update f i p i ≡ p
update_self f i p = ground arith

update_other : (f : ℕ → Pc) (i j : ℕ) (p : Pc) → i ≢ j → update f i p j ≡ f j
update_other f i j p h = ground (arith, h)

-- A step of the thread `k`, which stands at `p`.
step :
    {i j : ℕ} {s₀ : System} (s : System) (k w : ℕ) (p q : Pc)
    → Steps i j s₀ s
    → (k ≡ i) ⊎ (k ≡ j)
    → s.pc k ≡ p
    → Move s.lock_ p w q
    → Steps i j s₀ (moved s k w q)
step s k w p q before own e mv = further k before own (subst (λ x. Move s.lock_ x w q) (sym e) mv)

-- A free word below 2^31 lets an idle thread in, by its own three accesses.
take_free :
    (s₀ s : System) (i j : ℕ)
    → Steps i j s₀ s
    → s.lock_ < 2 ^ 31
    → s.pc i ≡ idle
    → (t : System) × Steps i j s₀ t × (t.pc i ≡ holding)
take_free s₀ s i j before free e =
    let w : ℕ = s.lock_ in
    let a : System = moved s i w spin in
    let b : System = moved a i w (loaded (masked w)) in
    let unset : is_set w ≡ false = ground (arith, free) in
    let same : w ≡ masked w = omega (arith, free) in
    (
      moved b i (acquired (masked w)) holding,
      step b i (acquired (masked w)) (loaded (masked w)) holding
          (step a i w spin (loaded (masked w)) (step s i w idle spin before (inl refl) e get_lock)
            (inl refl) (update_self s.pc i spin) (spin_free unset))
          (inl refl) (update_self a.pc i (loaded (masked w))) (cas_win same),
      update_self b.pc i holding,
    )

-- In every reachable state with a thread that holds the lock, before the last version, an idle thread
-- can be brought to hold it, by steps of these two threads alone.
pub hand_over :
    (s : System) (i j : ℕ)
    → Reach s
    → s.pc j ≡ holding
    → s.pc i ≡ idle
    → masked s.lock_ < 2 ^ 31 - 1
    → (t : System) × Steps i j s t × (t.pc i ≡ holding)
unfolding release_lock
hand_over s i j r hj hi last =
    let inv = Reach-Inv r in
    let w : ℕ = s.lock_ in
    let a : System = moved s j w (releasing w) in
    let b : System = moved a j (release_lock w) idle in
    let other : j ≢ i = λ e. let f : Pc.idle ≡ holding = sym hi ∙ ap s.pc (sym e) ∙ hj in cc in
    let h = holds-is_set r j (rw hj refl) in
    let set : 2 ^ 31 ≤ w = ground (arith, h, inv.fits) in
    take_free s b i j
      (step a j (release_lock w) (releasing w) idle
        (step s j w holding (releasing w) done (inr refl) hj load_release) (inr refl)
        (update_self s.pc j (releasing w)) store_release)
      (omega (arith, set, last, inv.fits))
      (update_other a.pc j i idle other ∙ update_other s.pc j i (releasing w) other ∙ hi)
