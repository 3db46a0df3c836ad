-- ===== src/Policy/V41/Experts.antt =====
-- How `plan_deepseek_v41` shares out the experts.
use native.Mathlib.Nat.{mul-one, one-mul}
use vllm_exl.Prelude.{
  exact-div, ◌*◌, ◌%◌, ◌≡◌, Bool, true, false, ◌==◌, if◌then◌else◌, clamp, ok, arith,
}
use vllm_exl.Prelude.Values.{Value, number}
use vllm_exl.Policy.V41.Layout.{
  plan_deepseek_v41, DeepseekV41Plan, Backend, exllamav3, exllamav3_fused_geometry_supported,
  native_p2b_geometry_supported,
}

-- The ranks of a layout hold all the experts at their full width exactly once: experts are shared
-- by the expert-parallel ranks, widths by the tensor-parallel ones, and these are all the ranks.
-- ExLlamaV3 is preferred exactly where both dimensions of a rank are positive multiples of 128,
-- and the native kernel is never the default.
pub plan_deepseek_v41-shares :
    (tp : Value) (ep : Bool) (experts hidden inter top_k : Value) (p : DeepseekV41Plan)
    → plan_deepseek_v41 tp ep experts hidden inter top_k ≡ ok p
    → (p.local_experts * p.expert_parallel_size ≡ p.global_experts)
      × (p.intermediate_size_per_rank * p.moe_tensor_parallel_size ≡ p.intermediate_size)
      × (p.expert_parallel_size * p.moe_tensor_parallel_size ≡ p.tensor_parallel_size)
      × (p.preferred_first_boot_backend ≡ (
          if native_p2b_geometry_supported p.hidden_size p.intermediate_size_per_rank
          then exllamav3
          else Backend.loop))
      × (p.native_p2b_default_enabled ≡ false)
unfolding plan_deepseek_v41 exllamav3_fused_geometry_supported
plan_deepseek_v41-shares tp true experts hidden inter top_k p h =
    let whole : (clamp (number experts) % clamp (number tp) == 0) ≡ true = ground arith in
    let shared = exact-div (clamp (number experts)) (clamp (number tp)) whole in
    let one = mul-one (clamp (number inter)) in
    let one' = mul-one (clamp (number tp)) in
    (ground arith, ground arith, ground arith, ground arith, ground arith)
plan_deepseek_v41-shares tp false experts hidden inter top_k p h =
    let whole : (clamp (number inter) % clamp (number tp) == 0) ≡ true = ground arith in
    let shared = exact-div (clamp (number inter)) (clamp (number tp)) whole in
    let one = mul-one (clamp (number experts)) in
    let one' = one-mul (clamp (number tp)) in
    (ground arith, ground arith, ground arith, ground arith, ground arith)
