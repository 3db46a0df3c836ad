-- ===== src/Policy/Uva.antt =====
-- The placement guard of src/vllm_exl3/uva_offload.py: the definitions in Defs, what a layer that
-- passes the guard holds in Guard.
pub mod Defs
pub mod Guard
mod Tests
