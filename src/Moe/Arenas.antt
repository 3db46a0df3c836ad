-- ===== src/Moe/Arenas.antt =====
-- `prepare_trellis_arena_plan` of src/vllm_exl3/exl3.py: the definitions in Defs, the slots of the
-- experts in Slots, which experts the arenas have in Members, that each has a slot in Complete.
pub mod Defs
pub mod Slots
pub mod Members
pub mod Complete
