-- ===== src/Lut/Prefix.antt =====
-- `longest_common_prefix` is the number of leading binary digits that two 64-bit numbers share.
use Prim.Native.Nat.{bit_xor}
use native.Mathlib.Nat.{div-div-eq-div-mul, pow-succ'}
use pimlex_fast.Base.{
  ℕ, zero, suc, ◌-◌, ◌/◌, ◌^◌, ◌≤◌, ◌<◌, ◌≡◌, ◌≢◌, sym, ap, ◌∙◌, arith, ==_iff, ==-false,
  ℕ_discrete,
}
use pimlex_fast.Lut.Xor.{half_lt, bit_xor-eq-zero, bit_xor_half, bit_xor_self}
use pimlex_fast.Lut.Defs.{shift_count, longest_common_prefix}

-- A shift by one more place, and by none.
shift_more : (x k : ℕ) → x / 2 ^ suc k ≡ x / 2 / 2 ^ k
shift_more x k = ap (λ m. x / m) (pow-succ' 2 k) ∙ sym (div-div-eq-div-mul x 2 (2 ^ k))

-- `s` places are the fewest behind which the numbers are the same.
pub record IsSplit (a b s : ℕ) : Type 0 where
  pub same : a / 2 ^ s ≡ b / 2 ^ s
  pub least : (k : ℕ) → k < s → a / 2 ^ k ≢ b / 2 ^ k

least_more :
    (a b s : ℕ)
    → a ≢ b
    → ((k : ℕ) → k < s → a / 2 / 2 ^ k ≢ b / 2 / 2 ^ k)
    → (k : ℕ) → k < suc s
    → a / 2 ^ k ≢ b / 2 ^ k
least_more a b s ne least zero h e = ne (omega (arith, e))
least_more a b s ne least (suc k) h e =
    least k (omega arith) (sym (shift_more a k) ∙ e ∙ shift_more b k)

shift_count-IsSplit :
    (n a b : ℕ)
    → a < 2 ^ n
    → b < 2 ^ n
    → IsSplit a b (shift_count n (bit_xor a b)) × (shift_count n (bit_xor a b) ≤ n)
unfolding shift_count
shift_count-IsSplit zero a b h k =
    (record { same = omega arith; least = λ j l. absurd (omega arith) }, omega arith)
shift_count-IsSplit (suc n) a b h k = elim (ℕ_discrete (bit_xor a b) 0) [
  | yes e ↦ rw ((==_iff (bit_xor a b) 0).1 e) (
    record {
      same = ap (λ x. x / 1) (bit_xor-eq-zero (suc n) a b h k e);
      least = λ j l. absurd (omega arith);
    },
    omega arith,
  )
  | no ne ↦
      let ih = shift_count-IsSplit n (a / 2) (b / 2) (half_lt n a h) (half_lt n b k) in
      rw (==-false (bit_xor a b) 0 ne, bit_xor_half a b)
        (
          record {
            same =
                shift_more a (shift_count n (bit_xor (a / 2) (b / 2)))
                ∙ ih.0.same
                ∙ sym (shift_more b (shift_count n (bit_xor (a / 2) (b / 2))));
            least =
                least_more a b (shift_count n (bit_xor (a / 2) (b / 2)))
                  (λ e. ne (ap (λ x. bit_xor a x) (sym e) ∙ bit_xor_self (suc n) a h)) ih.0.least;
          },
          omega (arith, ih.1),
        )
]

-- The digits of 64-bit numbers above the last `64 - longest_common_prefix` are the same, and no more are.
pub longest_common_prefix-IsSplit :
    (a b : ℕ)
    → a < 2 ^ 64
    → b < 2 ^ 64
    → IsSplit a b (64 - longest_common_prefix a b) × (longest_common_prefix a b ≤ 64)
unfolding longest_common_prefix
longest_common_prefix-IsSplit a b h k =
    let (split, few) = shift_count-IsSplit 64 a b h k in
    elim (ℕ_discrete (bit_xor a b) 0) [
      | yes e ↦ rw ((==_iff (bit_xor a b) 0).1 e) (
        record {
          same = ap (λ x. x / 1) (bit_xor-eq-zero 64 a b h k e);
          least = λ j l. absurd (omega arith);
        },
        omega arith,
      )
      | no ne ↦
          let places : 64 - (64 - shift_count 64 (bit_xor a b)) ≡ shift_count 64 (bit_xor a b) =
            omega (arith, few) in
          rw (==-false (bit_xor a b) 0 ne, places) (split, omega arith)
    ]
