-- ===== src/Q4kv.antt =====
-- The minimax q4 KV cache of src/vllm_exl3/minimax_q4kv_reference.py: the layout of a page in
-- Geometry, the row planners in Slices, the slice plan of a prefill chunk in Plans.
pub mod Geometry
pub mod Slices
pub mod Plans
