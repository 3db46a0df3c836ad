-- ===== src/Tp.antt =====
-- Tensor-parallel sharding of EXL3 weights, src/vllm_exl3/exl3.py: the definitions in Defs, what
-- holds of the shards in the other children.
pub mod Defs
pub mod Split
pub mod Narrow
pub mod Rotation
mod Tests
