-- ===== src/Policy/Prefill.antt =====
-- Grouped-prefill planning, src/vllm_exl3/prefill_policy.py: the definitions in Defs, what a plan
-- promises in Plans.
pub mod Defs
pub mod Plans
mod Tests
