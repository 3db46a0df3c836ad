-- ===== src/Policy/V41.antt =====
-- DeepSeek-V4.1: memory planning of src/vllm_exl3/v41_context.py and the layout and delegation of
-- src/vllm_exl3/deepseek_v41.py. The definitions are in Memory and Layout, their properties in
-- Budget and Experts.
pub mod Memory
pub mod Layout
pub mod Budget
pub mod Experts
mod Tests
