-- ===== src/Policy/CpuOffload/Tests.antt =====
-- A mul1 pack that is a candidate, and the theorem at it.
use vllm_exl.Prelude.{◌≡◌, refl, true, false, ◌&&◌, not, none, some, [], ◌∷◌, pos}
use vllm_exl.Prelude.Text.{text, is_space, lstrip, strip, lower}
use vllm_exl.Prelude.Values.{int_value, none_value}
use vllm_exl.Policy.CpuOffload.Defs.{
  several, text_ltb, insert_once, sorted_set, normalize_codebooks, mul1_only, refuted, is_empty,
  codebook_blockers, k_blockers, blockers_of, warnings_of, route_of, plan_exllamav3_cpu_offload,
  run_external, qualify_forward_port,
}
use vllm_exl.Policy.CpuOffload.Closed.{k_allowed, plan_exllamav3_cpu_offload-candidate}

program : Unit {0}
unfolding is_space lstrip strip lower text_ltb insert_once sorted_set normalize_codebooks mul1_only
    codebook_blockers k_blockers blockers_of warnings_of route_of plan_exllamav3_cpu_offload
program = tt

normalized :
    normalize_codebooks (several (text "mul1" ∷ text " " ∷ text "MCG " ∷ text "Mul1" ∷ []))
    ≡ text "mcg" ∷ text "mul1" ∷ []
unfolding program
normalized = refl

opened :
    (plan_exllamav3_cpu_offload
      (text "Qwen")
      (several (text " MUL1" ∷ []))
      (int_value (pos 8))
      (some true)
      none).recommended_route
    ≡ run_external
unfolding program
opened = refl

closed :
    (plan_exllamav3_cpu_offload
      (text "DeepseekV41ForCausalLM")
      (several (text "mul1" ∷ []))
      none_value
      none
      none).recommended_route
    ≡ qualify_forward_port
unfolding program
closed = refl

plan_exllamav3_cpu_offload-candidate_example :
    ((plan_exllamav3_cpu_offload
        (text "Qwen")
        (several (text "mul1" ∷ []))
        (int_value (pos 9))
        none
        none).exllamav3_metadata_candidate
      ≡ (not (is_empty (strip (text "Qwen")))
          && not (refuted none)
          && mul1_only (normalize_codebooks (several (text "mul1" ∷ [])))
          && k_allowed (int_value (pos 9))
          && not (refuted none)))
    × ((plan_exllamav3_cpu_offload
          (text "Qwen")
          (several (text "mul1" ∷ []))
          (int_value (pos 9))
          none
          none).vllm_exl3_execution_available
        ≡ false)
plan_exllamav3_cpu_offload-candidate_example =
    plan_exllamav3_cpu_offload-candidate (text "Qwen") (several (text "mul1" ∷ []))
      (int_value (pos 9)) none none
