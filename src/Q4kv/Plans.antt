-- ===== src/Q4kv/Plans.antt =====
-- The slice plan of a prefill chunk, src/vllm_exl3/minimax_q4kv_reference.py: the definitions in
-- Defs and, for the fast plan, in Fast; how the slices divide the chunk in Cover, and that the fast
-- plan is the legacy plan in Equal.
pub mod Defs
pub mod Fast
pub mod Equal
pub mod Cover
mod Tests
