-- ===== src/Policy/CpuOffload.antt =====
-- CPU-offload planning, src/vllm_exl3/cpu_offload.py: the definitions in Defs, when a plan is
-- a candidate in Closed.
pub mod Defs
pub mod Closed
mod Tests
