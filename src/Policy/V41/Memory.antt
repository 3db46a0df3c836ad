-- ===== src/Policy/V41/Memory.antt =====
-- `_positive_int`, `compute_v41_logical_global_kv_bytes`, `estimate_v41_kv_cache` and
-- `plan_v41_moe_topologies` of src/vllm_exl3/v41_context.py, and `compute_mla_kv_cache_bytes` of
-- src/vllm_exl3/exl3.py. The entries in GiB and `padding_fraction`, which are floats, and the entries
-- that are constants are left out, and so is a float argument that equals an integer.
use vllm_exl.Prelude.{
  ℕ, zero, suc, ◌+◌, ◌*◌, ◌/◌, ◌%◌, Bool, true, false, not, Option, none, some, ltb, ◌==◌, ℤ, pos,
  negsuc, Result, ok, raise, value_error, type_error, raise_if, ◌>>=◌, ◌>>◌,
}
use vllm_exl.Prelude.Values.{
  Value, none_value, other_value, bool_value, int_value, str_value, int_of,
}

-- a text that `int` reads is not equal to its number, a ValueError; any other is a TypeError
abbrev pub text_error : Option ℤ → Result ℕ
text_error none = raise type_error
text_error (some z) = raise value_error

abbrev pub at_least_1 : ℤ → Result ℕ
at_least_1 (pos zero) = raise value_error
at_least_1 (pos (suc n)) = ok (suc n)
at_least_1 (negsuc n) = raise value_error

-- `_positive_int`
unfoldable pub positive_int : Value → Result ℕ
positive_int (bool_value b) = raise type_error
positive_int (int_value z) = at_least_1 z
positive_int (str_value s) = text_error (int_of (str_value s))
positive_int none_value = raise type_error
positive_int other_value = raise type_error

-- `V41_LOGICAL_GLOBAL_KV_BYTES_PER_TOKEN`
abbrev pub logical_bytes_per_token : ℕ
logical_bytes_per_token = 890

unfoldable pub compute_v41_logical_global_kv_bytes : Value → Result ℕ
unfolding positive_int
compute_v41_logical_global_kv_bytes context_len = do
  context ← positive_int context_len
  ok (context * logical_bytes_per_token)

pub data Basis : Type 0 where
  measured_backend_allocation logical_lower_bound_only : Basis

pub record Estimate : Type 0 where
  pub context_len : ℕ
  pub logical_global_kv_bytes : ℕ
  pub backend_bytes_per_token : Option ℕ
  pub backend_allocated_kv_bytes : Option ℕ
  pub capacity_qualified : Bool
  pub basis : Basis

abbrev pub measured : ℕ → ℕ → ℕ → Result Estimate
measured context logical bpt = do
  raise_if (ltb bpt logical_bytes_per_token) value_error
  ok (record {
    context_len = context;
    logical_global_kv_bytes = logical;
    backend_bytes_per_token = some bpt;
    backend_allocated_kv_bytes = some (context * bpt);
    capacity_qualified = true;
    basis = measured_backend_allocation;
  })

abbrev pub with_backend : Option Value → ℕ → ℕ → Result Estimate
with_backend none context logical = ok (record {
  context_len = context;
  logical_global_kv_bytes = logical;
  backend_bytes_per_token = none;
  backend_allocated_kv_bytes = none;
  capacity_qualified = false;
  basis = logical_lower_bound_only;
})
with_backend (some v) context logical = positive_int v >>= measured context logical

-- `estimate_v41_kv_cache`; `backend_bytes_per_token` is `none` where it is None
unfoldable pub estimate_v41_kv_cache : Value → Option Value → Result Estimate
unfolding compute_v41_logical_global_kv_bytes
estimate_v41_kv_cache context_len backend_bytes_per_token = positive_int context_len >>= λ context.
    compute_v41_logical_global_kv_bytes (int_value (pos context))
    >>= with_backend backend_bytes_per_token context

-- the two halves of the result of `plan_v41_moe_topologies`
pub record Side : Type 0 where
  pub experts_per_rank : ℕ
  pub expert_hidden : ℕ
  pub expert_intermediate_local : ℕ
  pub intermediate_128_aligned : Bool

pub record Topologies : Type 0 where
  pub tp_size : ℕ
  pub ep : Side
  pub pure_moe_tp : Side
  -- of `pure_moe_tp`
  pub padded_intermediate_128 : ℕ

abbrev pub topologies : ℕ → Result Topologies
topologies tp = do
  raise_if (not (384 % tp == 0)) value_error
  raise_if (not (2304 % tp == 0)) value_error
  ok (record {
    tp_size = tp;
    ep = record {
      experts_per_rank = 384 / tp;
      expert_hidden = 5120;
      expert_intermediate_local = 2304;
      intermediate_128_aligned = 2304 % 128 == 0;
    };
    pure_moe_tp = record {
      experts_per_rank = 384;
      expert_hidden = 5120;
      expert_intermediate_local = 2304 / tp;
      intermediate_128_aligned = 2304 / tp % 128 == 0;
    };
    padded_intermediate_128 = (2304 / tp + 127) / 128 * 128;
  })

unfoldable pub plan_v41_moe_topologies : Value → Result Topologies
unfolding positive_int
plan_v41_moe_topologies tp_size = positive_int tp_size >>= topologies

abbrev pub at_least_0 : ℤ → Result ℕ
at_least_0 (pos n) = ok n
at_least_0 (negsuc n) = raise value_error

-- one pass of the loop of `compute_mla_kv_cache_bytes`
unfoldable pub non_negative_int : Value → Result ℕ
non_negative_int (bool_value b) = raise type_error
non_negative_int (int_value z) = at_least_0 z
non_negative_int (str_value s) = text_error (int_of (str_value s))
non_negative_int none_value = raise type_error
non_negative_int other_value = raise type_error

unfoldable pub compute_mla_kv_cache_bytes : Value → Value → Value → Value → Value → Result ℕ
unfolding non_negative_int
compute_mla_kv_cache_bytes context_len num_layers kv_lora_rank qk_rope_head_dim dtype_bytes = do
  context ← non_negative_int context_len
  layers ← non_negative_int num_layers
  rank ← non_negative_int kv_lora_rank
  rope ← non_negative_int qk_rope_head_dim
  bytes ← non_negative_int dtype_bytes
  ok (context * layers * (rank + rope) * bytes)
