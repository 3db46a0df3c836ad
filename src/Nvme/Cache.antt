-- ===== src/Nvme/Cache.antt =====
-- The cache of experts of experiments/dsv41_nvme/expert_cache.py, a client of Regions: the
-- definitions in Defs and, for the constructor, in Opening. Entries is about the list of entries,
-- Leases about eviction and leases, Arena about the arenas, Blocks and Owned about the entries that
-- their blocks belong to, Partition about the arenas of a new cache, and Stocked about its first load.
pub mod Defs
pub mod Entries
pub mod Leases
pub mod Arena
pub mod Blocks
pub mod Owned
pub mod Opening
pub mod Partition
pub mod Stocked
mod Tests
