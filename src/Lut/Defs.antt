-- ===== src/Lut/Defs.antt =====
-- `longest_common_prefix`, the table of a model, and its use on the DPU. Positions are natural numbers:
-- the load reports a model with a negative intercept.
use Prim.Native.Nat.{bit_xor}
use pimlex_fast.Base.{
  ℕ, zero, suc, ◌+◌, ◌-◌, ◌*◌, ◌/◌, ◌%◌, ◌^◌, max, Bool, false, ltb, leb, ◌==◌, if◌then◌else◌, ◌&&◌,
}
use pimlex_fast.Dpu.Defs.{epsilon_recursive_dpu, prediction_cost, DpuArguments, offset_at}

-- `while(xor_result > 0){ xor_result >>= 1; ++shift; }` for at most that many rounds; 64 are enough.
unfoldable pub shift_count : ℕ → ℕ → ℕ
shift_count zero xor_result = 0
shift_count (suc n) xor_result =
    let rest = shift_count n (xor_result / 2) in if xor_result == 0 then 0 else suc rest

unfoldable pub longest_common_prefix : ℕ → ℕ → ℕ
longest_common_prefix a b = if bit_xor a b == 0 then 64 else 64 - shift_count 64 (bit_xor a b)

abbrev pub max_lut_size : ℕ
max_lut_size = 16

abbrev pub more_shift_num : ℕ
more_shift_num = 4

abbrev pub access_mram_cost : ℕ
access_mram_cost = 20

-- `lut_model_t`
pub record LutModel : Type 0 where
  pub use_lut : Bool
  pub shift_len : ℕ
  pub pos : ℕ → ℕ

-- `max_range` over the first `n` steps of the table.
abbrev pub max_range : (ℕ → ℕ) → ℕ → ℕ
max_range pos zero = 1
max_range pos (suc n) = max (max_range pos n) (pos (n + 1) - pos n)

-- `tempbasekey`
unfoldable pub table_key : ℕ → ℕ → ℕ → ℕ
table_key key shift_len j = (key / 2 ^ shift_len + j) * 2 ^ shift_len % 2 ^ 64

-- The test of the cost in the levels above the bottom one; the one of the bottom level takes the
-- logarithms of the range and of the epsilon.
unfoldable pub inner_cheaper : ℕ → Bool
inner_cheaper range =
    ltb (range * access_mram_cost + 10) (prediction_cost + epsilon_recursive_dpu * access_mram_cost)

-- The table of the model of `key`, before the model of `next_key`. `predict` is the model's position for
-- a key behind its own, and `unset` what the memory holds.
module _ (predict : ℕ → ℕ) (cheaper : ℕ → Bool) (key intercept next_key next_intercept : ℕ) where
  unfoldable pub table_pos : ℕ → ℕ → ℕ
  unfolding table_key
  table_pos shift_len j =
      if leb (table_key key shift_len j) key
      then intercept
      else (if leb next_key (table_key key shift_len j)
          then next_intercept
          else predict (table_key key shift_len j))

  abbrev pub with_end : (ℕ → ℕ) → ℕ → ℕ
  with_end pos j = if j == max_lut_size then next_intercept else pos j

  unfoldable pub lut_model : LutModel → LutModel
  unfolding table_pos longest_common_prefix
  lut_model unset =
      let prefix_len = longest_common_prefix key next_key in
      let shift_len = 64 - prefix_len - more_shift_num in
      let pos = with_end (table_pos shift_len) in
      if leb prefix_len (64 - more_shift_num)
      then record {
        use_lut = cheaper (max_range pos max_lut_size);
        shift_len = shift_len;
        pos = pos;
      }
      else record unset { use_lut = false }

-- The position of a key on the DPU, before it is capped: `predicted` is the one of the model itself.
unfoldable pub lut_position : ℕ → ℕ → LutModel → ℕ → ℕ
lut_position predicted key lut searching_for =
    let off = (searching_for / 2 ^ lut.shift_len + 2 ^ 64 - key / 2 ^ lut.shift_len) % 2 ^ 64 in
    if lut.use_lut then (if leb 16 off then predicted else lut.pos off) else predicted

-- In the bottom level: the entry of the key and the one behind it.
unfoldable pub lut_range : ℕ → ℕ → LutModel → ℕ → ℕ × ℕ
lut_range predicted key lut searching_for =
    let off = (searching_for / 2 ^ lut.shift_len + 2 ^ 64 - key / 2 ^ lut.shift_len) % 2 ^ 64 in
    if leb 16 off then (predicted, predicted) else (lut.pos off, lut.pos (off + 1))

-- The window of sampled keys `l` and `r` from two positions.
unfoldable pub range_window : ℕ → ℕ → ℕ × ℕ → ℕ × ℕ
range_window set_epsilon input_size (predicted_pos, predicted_pos2) = (
  if ltb set_epsilon predicted_pos then predicted_pos - set_epsilon else 0,
  if ltb input_size (predicted_pos2 + set_epsilon + 2)
      then input_size
      else predicted_pos2 + set_epsilon + 2,
)

-- The position of a model without a table. `l` is still the end of the bisection of the start level.
unfoldable pub stale_cap : (ℕ → ℕ) → ℕ → ℕ → ℕ → ℕ → ℕ
stale_cap intercepts bottom l cur_offset predicted_pos =
    if ltb l (bottom - 1) && ltb (intercepts (cur_offset + 1)) predicted_pos
    then intercepts l
    else predicted_pos

-- The window of a query from the model `cur_offset`, which predicts `predicted`, and its table.
unfoldable pub lut_window : (ℕ → ℕ) → DpuArguments → ℕ → ℕ → ℕ → ℕ → LutModel → ℕ → ℕ × ℕ
unfolding lut_range range_window stale_cap
lut_window intercepts a l cur_offset predicted key lut searching_for =
    let capped = stale_cap intercepts (offset_at a 1) l cur_offset predicted in
    range_window a.set_epsilon a.input_size
      (if lut.use_lut then lut_range predicted key lut searching_for else (capped, capped))

-- The tables of a slice's models: of the bottom level, whose bounds are the first two offsets, and of
-- the levels above. The last model of each of the two has none.
module _ (predict : ℕ → ℕ → ℕ) (keys intercepts : ℕ → ℕ) where
  unfoldable pub lut_tables : (ℕ → Bool) → ℕ → ℕ → (ℕ → LutModel) → ℕ → LutModel
  unfolding lut_model
  lut_tables cheaper zero h transfer_lut_model = transfer_lut_model
  lut_tables cheaper (suc n) h transfer_lut_model = lut_tables cheaper n (h + 1) (λ i.
      if i == h
      then lut_model (predict h) cheaper (keys h) (intercepts h) (keys (h + 1)) (intercepts (h + 1))
          (transfer_lut_model h)
      else transfer_lut_model i)

  unfoldable pub lut_slice : (ℕ → Bool) → ℕ → ℕ → ℕ → (ℕ → LutModel) → ℕ → LutModel
  unfolding lut_tables inner_cheaper
  lut_slice bottom_cheaper start upper end unset =
      lut_tables inner_cheaper (end - 1 - upper) upper
        (lut_tables bottom_cheaper (upper - 1 - start) start unset)
