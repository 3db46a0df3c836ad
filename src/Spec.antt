-- ===== src/Spec.antt =====
-- The batch-adaptive speculative-decoding policy of src/vllm_exl3/exl3.py: the definitions in
-- Defs, the validity of a schedule in Order, what the lookup returns in Lookup, the mask of the
-- candidates in Mask.
pub mod Defs
pub mod Order
pub mod Lookup
pub mod Mask
mod Tests
