-- ===== src/Policy/Prefill/Defs.antt =====
-- `grouped_prefill_max_rows`, `grouped_prefill_scratch_bytes` and `plan_grouped_prefill` of
-- src/vllm_exl3/prefill_policy.py. `math.ceil(a / b)` goes through a float, which is the exact
-- quotient rounded up below 2 ^ 53 rows; it is the exact one here.
use vllm_exl.Prelude.{
  ℕ, ◌+◌, ◌-◌, ◌*◌, ◌/◌, ◌%◌, min, Bool, true, false, ◌&&◌, ◌||◌, not, Option, none, some, List, [],
  ◌∷◌, ltb, leb, ◌==◌, if◌then◌else◌, Result, ok, raise, value_error, raise_if, ◌>>=◌, ◌>>◌, ℤ, pos,
  clamp, type_error,
}
use vllm_exl.Prelude.Text.{Text, text, text_eq, strip, lower}
use vllm_exl.Prelude.Values.{
  Value, none_value, other_value, bool_value, int_value, str_value, exact_int, non_negative, number,
  all_ints, not_positive, is_negative,
}
use vllm_exl.Policy.Env.{env_enabled, positive_int_env}

unfoldable pub grouped_prefill_max_rows : Option Text → ℤ → Result ℤ
grouped_prefill_max_rows env default = do
  raise_if (not_positive default) value_error
  ok (positive_int_env env default)

-- the test `isinstance` and the test `value < 0` of one argument
unfoldable pub size_of : Value → Result ℕ
size_of v = do z ← exact_int v; non_negative z

unfoldable pub grouped_prefill_scratch_bytes : Value → Value → Value → Value → Result ℕ
unfolding size_of
grouped_prefill_scratch_bytes rows hidden_size intermediate_size dtype_bytes = do
  r ← size_of rows
  h ← size_of hidden_size
  i ← size_of intermediate_size
  d ← size_of dtype_bytes
  raise_if (not (r == 0) && (h == 0 || i == 0 || d == 0)) value_error
  ok (r * (h + 3 * i) * d)

pub data Reason : Type 0 where
  is_eligible disabled mul1_not_supported hidden_not_multiple_of_256 : Reason
  intermediate_not_multiple_of_128 below_fat_threshold : Reason
  unsupported_bits : ℕ → Reason
  unsupported_codebook : Text → Reason

pub record GroupedPrefillPlan : Type 0 where
  pub requested : Bool
  pub eligible : Bool
  pub reason : Reason
  pub bits : ℕ
  pub codebook : Text
  pub routed_rows : ℕ
  pub fat_threshold : ℕ
  pub tile_rows : ℕ
  pub window_rows : ℕ
  pub windows : ℕ
  pub scratch_bytes : ℕ

-- the keyword arguments
pub record Arguments : Type 0 where
  pub bits : Value
  pub codebook : Text
  pub has_mul1 : Bool
  pub hidden_size : Value
  pub intermediate_size : Value
  pub routed_rows : Value
  pub fat_threshold : Value
  pub tile_rows : Value
  -- `none_value` where it is left out
  pub max_rows : Value
  pub requested : Option Bool
  pub supported_bits : List ℕ

-- the arguments after the tests
pub record Sizes : Type 0 where
  pub bits : ℕ
  pub hidden_size : ℕ
  pub intermediate_size : ℕ
  pub routed_rows : ℕ
  pub fat_threshold : ℕ
  pub tile_rows : ℕ

-- the arguments as numbers, where they are integers
abbrev pub sizes_of : Arguments → Sizes
sizes_of a = record {
  bits = clamp (number a.bits);
  hidden_size = clamp (number a.hidden_size);
  intermediate_size = clamp (number a.intermediate_size);
  routed_rows = clamp (number a.routed_rows);
  fat_threshold = clamp (number a.fat_threshold);
  tile_rows = clamp (number a.tile_rows);
}

-- the tests of the arguments
unfoldable pub checked : Arguments → Result Sizes
checked a = do
  raise_if
      (not (
        all_ints (
          a.bits ∷ a.hidden_size ∷ a.intermediate_size ∷ a.routed_rows ∷ a.fat_threshold
          ∷ a.tile_rows ∷ [])))
      type_error
  raise_if
      (not_positive (number a.bits)
        || not_positive (number a.hidden_size)
        || not_positive (number a.intermediate_size)
        || is_negative (number a.routed_rows))
      value_error
  raise_if (is_negative (number a.fat_threshold) || not_positive (number a.tile_rows)) value_error
  ok (sizes_of a)

-- the tests of `limit`, for a tile that it must hold
unfoldable pub limit_checked : ℤ → ℕ → Result ℕ
limit_checked limit tile = do
  raise_if (not_positive limit) value_error
  raise_if (ltb (clamp limit) tile) value_error
  ok (clamp limit)

unfoldable pub limit_of : Option Text → Value → ℕ → Result ℕ
unfolding grouped_prefill_max_rows limit_checked
limit_of env none_value tile = grouped_prefill_max_rows env (pos 8192) >>= λ z. limit_checked z tile
limit_of env (int_value z) tile = limit_checked z tile
limit_of env (bool_value b) tile = raise value_error
limit_of env other_value tile = raise value_error
limit_of env (str_value s) tile = raise value_error

unfoldable pub elem : ℕ → List ℕ → Bool
elem n [] = false
elem n (m ∷ ms) = n == m || elem n ms

-- the chain of `if` and `elif`
unfoldable pub reason_of : Bool → List ℕ → Text → Bool → Sizes → Reason
unfolding elem
reason_of requested supported codebook has_mul1 s =
    if not requested
    then disabled
    else if not (elem s.bits supported)
    then unsupported_bits s.bits
    else if not (text_eq (lower (strip codebook)) (text "mcg"))
    then unsupported_codebook codebook
    else if has_mul1
    then mul1_not_supported
    else if not (s.hidden_size % 256 == 0)
    then hidden_not_multiple_of_256
    else if not (s.intermediate_size % 128 == 0)
    then intermediate_not_multiple_of_128
    else if leb s.routed_rows s.fat_threshold
    then below_fat_threshold
    else is_eligible

abbrev pub reason_eligible : Reason → Bool
reason_eligible is_eligible = true
reason_eligible disabled = false
reason_eligible mul1_not_supported = false
reason_eligible hidden_not_multiple_of_256 = false
reason_eligible intermediate_not_multiple_of_128 = false
reason_eligible below_fat_threshold = false
reason_eligible (unsupported_bits n) = false
reason_eligible (unsupported_codebook t) = false

-- `math.ceil(a / b)`
unfoldable pub ceil_div : ℕ → ℕ → ℕ
ceil_div a b = (a + b - 1) / b

-- `window_rows` of an eligible plan
unfoldable pub window_of : ℕ → ℕ → ℕ → ℕ
unfolding ceil_div
window_of rows tile limit = min (ceil_div rows tile * tile) (limit / tile * tile)

-- the plan, from its reason, the window and the scratch of the window
abbrev pub plan_with : Bool → Reason → Text → Sizes → ℕ → ℕ → ℕ → GroupedPrefillPlan
plan_with requested reason codebook s window windows scratch = record {
  requested = requested;
  eligible = reason_eligible reason;
  reason = reason;
  bits = s.bits;
  codebook = lower (strip codebook);
  routed_rows = s.routed_rows;
  fat_threshold = s.fat_threshold;
  tile_rows = s.tile_rows;
  window_rows = window;
  windows = windows;
  scratch_bytes = scratch;
}

-- the block under `if eligible`, and the plan
unfoldable pub windowed : Bool → Reason → Text → Sizes → ℕ → Result GroupedPrefillPlan
unfolding window_of grouped_prefill_scratch_bytes
windowed requested reason codebook s limit = elim (reason_eligible reason) [
  | false ↦ ok (plan_with requested reason codebook s 0 0 0)
  | true ↦
      let window = window_of s.routed_rows s.tile_rows limit in
      grouped_prefill_scratch_bytes (int_value (pos window)) (int_value (pos s.hidden_size))
        (int_value (pos s.intermediate_size)) (int_value (pos 2))
      >>= λ scratch.
          ok (plan_with requested reason codebook s window (ceil_div s.routed_rows window) scratch)
]

abbrev pub requested_or : Bool → Option Bool → Bool
requested_or default none = default
requested_or default (some b) = b

-- `plan_grouped_prefill`, from the values of VLLM_EXL3_GROUPED_PREFILL and of
-- VLLM_EXL3_GROUPED_PREFILL_MAX_ROWS
unfoldable pub plan_grouped_prefill :
    Option Text → Option Text → Arguments → Result GroupedPrefillPlan
unfolding checked limit_of reason_of windowed
plan_grouped_prefill env_requested env_rows a = do
  s ← checked a
  limit ← limit_of env_rows a.max_rows s.tile_rows
  let requested = requested_or (env_enabled env_requested false) a.requested in
      windowed requested (reason_of requested a.supported_bits a.codebook a.has_mul1 s) a.codebook s
        limit
