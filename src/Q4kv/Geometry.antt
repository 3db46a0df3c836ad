-- ===== src/Q4kv/Geometry.antt =====
-- The layout of a page of the q4 KV pool, src/vllm_exl3/minimax_q4kv_reference.py: the definitions
-- in Defs, the scale block in Scales.
pub mod Defs
pub mod Scales
mod Tests
