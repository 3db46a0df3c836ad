-- ===== src/Q4kv/Slices.antt =====
-- The greedy partition of prefill rows into page-capped ranges: the definitions in Defs, the theory
-- in the other children.
pub mod Defs
pub mod Pages
pub mod Absorb
pub mod Legacy
pub mod Curve
pub mod Ranges
mod Tests
