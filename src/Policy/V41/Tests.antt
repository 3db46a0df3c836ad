-- ===== src/Policy/V41/Tests.antt =====
-- Layouts and estimates of V4.1, and the theorems at them.
use vllm_exl.Prelude.{
  ◌+◌, ◌*◌, ◌%◌, ◌≤◌, ◌<◌, ◌≡◌, refl, true, false, Option, none, some, [], ◌∷◌, pos, ok, raise,
  value_error, if◌then◌else◌,
}
use vllm_exl.Prelude.Text.{text, is_space, lstrip, strip, lower, digits, signed, int}
use vllm_exl.Prelude.Values.{Value, int_value, none_value, str_value, int_of}
use vllm_exl.Policy.Env.{env_affirmed}
use vllm_exl.Policy.V41.Memory.{
  positive_int, compute_v41_logical_global_kv_bytes, Estimate, measured_backend_allocation,
  estimate_v41_kv_cache, Topologies, plan_v41_moe_topologies, compute_mla_kv_cache_bytes,
  non_negative_int,
}
use vllm_exl.Policy.V41.Layout.{
  Config, normalize_block_size, is_deepseek_v41_source_quant, delegate_from,
  should_delegate_dspark_source, native_p2b_geometry_supported, exllamav3_fused_geometry_supported,
  plan_deepseek_v41, DeepseekV41Plan, exllamav3, Backend,
}
use vllm_exl.Policy.V41.Budget.{plan_v41_moe_topologies-shares}
use vllm_exl.Policy.V41.Experts.{plan_deepseek_v41-shares}

program : Unit {0}
unfolding is_space lstrip strip lower digits signed int int_of env_affirmed positive_int
    compute_v41_logical_global_kv_bytes estimate_v41_kv_cache plan_v41_moe_topologies
    compute_mla_kv_cache_bytes non_negative_int normalize_block_size is_deepseek_v41_source_quant
    delegate_from should_delegate_dspark_source native_p2b_geometry_supported
    exllamav3_fused_geometry_supported plan_deepseek_v41
program = tt

abbrev estimate : Estimate
estimate = record {
  context_len = 1000;
  logical_global_kv_bytes = 890000;
  backend_bytes_per_token = some 1024;
  backend_allocated_kv_bytes = some 1024000;
  capacity_qualified = true;
  basis = measured_backend_allocation;
}

estimated : estimate_v41_kv_cache (int_value (pos 1000)) (some (int_value (pos 1024))) ≡ ok estimate
unfolding program
estimated = refl

text_context : estimate_v41_kv_cache (str_value (text "5")) none ≡ raise value_error
unfolding program
text_context = refl

mla :
    compute_mla_kv_cache_bytes
      (int_value (pos 1000))
      (int_value (pos 43))
      (int_value (pos 512))
      (int_value (pos 64))
      (int_value (pos 1))
    ≡ ok 24768000
unfolding program
mla = refl

abbrev tp4 : Topologies
tp4 = record {
  tp_size = 4;
  ep = record {
    experts_per_rank = 96;
    expert_hidden = 5120;
    expert_intermediate_local = 2304;
    intermediate_128_aligned = true;
  };
  pure_moe_tp = record {
    experts_per_rank = 384;
    expert_hidden = 5120;
    expert_intermediate_local = 576;
    intermediate_128_aligned = false;
  };
  padded_intermediate_128 = 640;
}

at_tp4 : plan_v41_moe_topologies (int_value (pos 4)) ≡ ok tp4
unfolding program
at_tp4 = refl

abbrev ep4 : DeepseekV41Plan
ep4 = record {
  tensor_parallel_size = 4;
  expert_parallel = true;
  moe_tensor_parallel_size = 1;
  expert_parallel_size = 4;
  global_experts = 384;
  local_experts = 96;
  hidden_size = 5120;
  intermediate_size = 2304;
  intermediate_size_per_rank = 2304;
  top_k = 6;
  exllamav3_fused_candidate = true;
  native_p2b_candidate = true;
  native_p2b_requires_abi = 3;
  native_p2b_default_enabled = false;
  preferred_first_boot_backend = exllamav3;
}

planned :
    plan_deepseek_v41
      (int_value (pos 4))
      true
      (int_value (pos 384))
      (int_value (pos 5120))
      (int_value (pos 2304))
      (int_value (pos 6))
    ≡ ok ep4
unfolding program
planned = refl

abbrev source_config : Config
source_config = record {
  quant_method = text "deepseek_v4_fp8";
  weight_block_size = some (int_value (pos 32) ∷ int_value (pos 32) ∷ []);
  mtp_experts = text "Source";
  mtp_experts_start_layer = none_value;
}

delegated : should_delegate_dspark_source source_config (some 43) (some 128) ≡ true
unfolding program
delegated = refl

main_stack : should_delegate_dspark_source source_config (some 43) (some 384) ≡ false
unfolding program
main_stack = refl

abbrev given : Option Value
given = some (int_value (pos 1024))

plan_v41_moe_topologies-shares_example :
    (positive_int (int_value (pos 4)) ≡ ok tp4.tp_size)
    × (tp4.ep.experts_per_rank * tp4.tp_size ≡ 384)
    × (tp4.ep.expert_intermediate_local ≡ 2304)
    × (tp4.pure_moe_tp.experts_per_rank ≡ 384)
    × (tp4.pure_moe_tp.expert_intermediate_local * tp4.tp_size ≡ 2304)
    × (tp4.padded_intermediate_128 % 128 ≡ 0)
    × (tp4.pure_moe_tp.expert_intermediate_local ≤ tp4.padded_intermediate_128)
    × (tp4.padded_intermediate_128 < tp4.pure_moe_tp.expert_intermediate_local + 128)
plan_v41_moe_topologies-shares_example =
    plan_v41_moe_topologies-shares (int_value (pos 4)) tp4 at_tp4

plan_deepseek_v41-shares_example :
    (ep4.local_experts * ep4.expert_parallel_size ≡ ep4.global_experts)
    × (ep4.intermediate_size_per_rank * ep4.moe_tensor_parallel_size ≡ ep4.intermediate_size)
    × (ep4.expert_parallel_size * ep4.moe_tensor_parallel_size ≡ ep4.tensor_parallel_size)
    × (ep4.preferred_first_boot_backend ≡ (
        if native_p2b_geometry_supported ep4.hidden_size ep4.intermediate_size_per_rank
        then exllamav3
        else Backend.loop))
    × (ep4.native_p2b_default_enabled ≡ false)
plan_deepseek_v41-shares_example =
    plan_deepseek_v41-shares (int_value (pos 4)) true (int_value (pos 384)) (int_value (pos 5120))
      (int_value (pos 2304)) (int_value (pos 6)) ep4 planned
