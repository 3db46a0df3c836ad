-- ===== src/Moe.antt =====
-- The experts of a layer of src/vllm_exl3/exl3.py: the arenas of their trellises in Arenas, the
-- routing of their global ids to local ones in Routing.
pub mod Arenas
pub mod Routing
mod Tests
