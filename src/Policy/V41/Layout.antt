-- ===== src/Policy/V41/Layout.antt =====
-- `is_deepseek_v41_source_quant`, `should_delegate_dspark_source`, the two geometry tests,
-- `plan_deepseek_v41` and the geometry wrapper of src/vllm_exl3/deepseek_v41.py.
use vllm_exl.Prelude.{
  ℕ, suc, ◌/◌, ◌%◌, Bool, true, false, ◌&&◌, ◌||◌, not, Option, none, some, List, [], ◌∷◌, ltb, leb,
  ◌==◌, if◌then◌else◌, ℤ, pos, negsuc, Result, ok, value_error, raise_if, ◌>>◌, clamp,
}
use vllm_exl.Prelude.Text.{Text, text, text_eq, strip, lower}
use vllm_exl.Prelude.Values.{Value, none_value, int_of, is_int, number, not_positive}
use vllm_exl.Policy.Env.{env_affirmed}
use vllm_exl.Policy.Rows.Defs.{Geometry, attribute}

-- what `getattr` and `get` find in the configuration; `weight_block_size` is `none` where it is
-- no list or tuple
pub record Config : Type 0 where
  pub quant_method : Text
  pub weight_block_size : Option (List Value)
  pub mtp_experts : Text
  -- `none_value` where it is missing or None
  pub mtp_experts_start_layer : Value

abbrev pub block : Option ℤ → Option ℤ → Option (ℕ × ℕ)
block (some (pos (suc r))) (some (pos (suc c))) = some (suc r, suc c)
block _ _ = none

-- `_normalize_block_size`
unfoldable pub normalize_block_size : Option (List Value) → Option (ℕ × ℕ)
normalize_block_size (some (r ∷ c ∷ [])) = block (int_of r) (int_of c)
normalize_block_size _ = none

abbrev pub block_is : Option (ℕ × ℕ) → ℕ → ℕ → Bool
block_is none r c = false
block_is (some (a, b)) r c = a == r && b == c

unfoldable pub is_deepseek_v41_source_quant : Config → Bool
unfolding normalize_block_size
is_deepseek_v41_source_quant c =
    text_eq (lower (strip c.quant_method)) (text "deepseek_v4_fp8")
    && block_is (normalize_block_size c.weight_block_size) 32 32

-- `layer_index is not None and layer_index >= start`, for a start that was read
abbrev pub at_or_after : Option ℕ → Option ℤ → Bool
at_or_after none start = false
at_or_after (some n) none = false
at_or_after (some n) (some (pos m)) = leb m n
at_or_after (some n) (some (negsuc m)) = true

abbrev pub is_128 : Option ℕ → Bool
is_128 none = false
is_128 (some n) = n == 128

-- the part after the test of `mtp_experts`
unfoldable pub delegate_from : Value → Option ℕ → Bool → Option ℕ → Bool
delegate_from none_value layer_index source experts = source && is_128 experts
delegate_from start layer_index source experts = at_or_after layer_index (int_of start)

-- `should_delegate_dspark_source`, from the number after `layers.` in the prefix
unfoldable pub should_delegate_dspark_source : Config → Option ℕ → Option ℕ → Bool
unfolding is_deepseek_v41_source_quant delegate_from
should_delegate_dspark_source c layer_index global_num_experts =
    text_eq (lower (strip c.mtp_experts)) (text "source")
    && delegate_from c.mtp_experts_start_layer layer_index (is_deepseek_v41_source_quant c)
        global_num_experts

unfoldable pub native_p2b_geometry_supported : ℕ → ℕ → Bool
native_p2b_geometry_supported hidden_size intermediate_size =
    ltb 0 hidden_size
    && ltb 0 intermediate_size
    && hidden_size % 128 == 0
    && intermediate_size % 128 == 0

unfoldable pub exllamav3_fused_geometry_supported : ℕ → ℕ → Bool
unfolding native_p2b_geometry_supported
exllamav3_fused_geometry_supported = native_p2b_geometry_supported

pub data Backend : Type 0 where
  exllamav3 loop : Backend

pub record DeepseekV41Plan : Type 0 where
  pub tensor_parallel_size : ℕ
  pub expert_parallel : Bool
  pub moe_tensor_parallel_size : ℕ
  pub expert_parallel_size : ℕ
  pub global_experts : ℕ
  pub local_experts : ℕ
  pub hidden_size : ℕ
  pub intermediate_size : ℕ
  pub intermediate_size_per_rank : ℕ
  pub top_k : ℕ
  pub exllamav3_fused_candidate : Bool
  pub native_p2b_candidate : Bool
  pub native_p2b_requires_abi : ℕ
  pub native_p2b_default_enabled : Bool
  pub preferred_first_boot_backend : Backend

-- `isinstance(value, bool) or not isinstance(value, int) or value <= 0`
abbrev pub bad : Value → Bool
bad v = not (is_int v) || not_positive (number v)

-- the layout, after the tests
abbrev pub laid_out : Bool → ℕ → ℕ → ℕ → ℕ → ℕ → DeepseekV41Plan
laid_out expert_parallel tp experts hidden inter top_k =
    let inter_local = if expert_parallel then inter else inter / tp in
    let fused = exllamav3_fused_geometry_supported hidden inter_local in
    record {
      tensor_parallel_size = tp;
      expert_parallel = expert_parallel;
      moe_tensor_parallel_size = if expert_parallel then 1 else tp;
      expert_parallel_size = if expert_parallel then tp else 1;
      global_experts = experts;
      local_experts = if expert_parallel then experts / tp else experts;
      hidden_size = hidden;
      intermediate_size = inter;
      intermediate_size_per_rank = inter_local;
      top_k = top_k;
      exllamav3_fused_candidate = fused;
      native_p2b_candidate = native_p2b_geometry_supported hidden inter_local;
      native_p2b_requires_abi = 3;
      native_p2b_default_enabled = false;
      preferred_first_boot_backend = if fused then exllamav3 else loop;
    }

-- `plan_deepseek_v41`, without the texts of `reason`
unfoldable pub plan_deepseek_v41 :
    Value → Bool → Value → Value → Value → Value → Result DeepseekV41Plan
unfolding exllamav3_fused_geometry_supported
plan_deepseek_v41 tensor_parallel_size expert_parallel global_experts hidden_size intermediate_size
      top_k =
    let tp = clamp (number tensor_parallel_size) in
    let experts = clamp (number global_experts) in
    let inter = clamp (number intermediate_size) in
    do
      raise_if
          (bad tensor_parallel_size
            || bad global_experts
            || bad hidden_size
            || bad intermediate_size
            || bad top_k)
          value_error
      raise_if (not (experts % tp == 0)) value_error
      raise_if (not expert_parallel && not (inter % tp == 0)) value_error
      ok (
          laid_out expert_parallel tp experts (clamp (number hidden_size)) inter
            (clamp (number top_k)))

-- `dimensions_supported_v41`, from the value of VLLM_EXL3_V41_NATIVE_MOE and the ABI version of the
-- extension, `none` where there is no extension; `cap` is the module's resolver
unfoldable pub dimensions_supported_v41 :
    Option Text → Option ℕ → (ℕ → ℕ) → (Geometry → Bool) → Geometry → Bool
dimensions_supported_v41 env abi cap original g =
    let bits = attribute g.k (attribute g.bits 0) in
    original g
    || env_affirmed env false
      && g.dims == 2
      && g.is_cuda
      && g.limit_good
      && attribute g.hidden_size g.width == 5120
      && attribute g.intermediate_local 0 == 2304
      && g.width == attribute g.hidden_size g.width
      && native_p2b_geometry_supported (attribute g.hidden_size g.width)
          (attribute g.intermediate_local 0)
      && (bits == 2 || bits == 3 || bits == 4)
      && leb 1 g.rows
      && ltb 0 g.inners
      && leb 3 (attribute abi 0)
      && leb g.rows (cap bits)
