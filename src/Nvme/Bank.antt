-- ===== src/Nvme/Bank.antt =====
-- The bank of expert records of experiments/dsv41_nvme/expert_store.py: the manifest and the tests
-- of the constructor in Defs, what an accepted manifest has in Tiling, the reads of an accepted
-- bank in Served.
pub mod Defs
pub mod Tiling
pub mod Served
mod Tests
