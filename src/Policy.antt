-- ===== src/Policy.antt =====
-- The admission and dispatch policies: grouped prefill, CPU offload, native row caps, DeepSeek-V4.1
-- geometry and memory, and UVA placement.
pub mod Env
pub mod Prefill
pub mod CpuOffload
pub mod Rows
pub mod V41
pub mod Uva
