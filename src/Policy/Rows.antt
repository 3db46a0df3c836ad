-- ===== src/Policy/Rows.antt =====
-- The native row cap, src/vllm_exl3/runtime_policy.py and `_native_moe_max_rows` of exl3.py: the
-- definitions in Defs, what the installed resolver does in Resolver.
pub mod Defs
pub mod Resolver
mod Tests
