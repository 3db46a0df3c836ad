-- ===== src/Nvme/Regions.antt =====
-- `class Regions` of experiments/dsv41_nvme/expert_store.py: the definitions in Defs, the theory
-- of address cover and of coalesced lists in the other children.
pub mod Defs
pub mod Cover
pub mod Gapped
pub mod Sorting
pub mod Aligned
pub mod Validity
pub mod Laws
mod Tests
