-- ===== src/Nvme.antt =====
-- The NVMe expert streaming experiment, experiments/dsv41_nvme: the reads of both stores in Reads,
-- the arena of the experts in Regions, the cache on top of it in Cache, the
-- cache of embedding rows in Engram, the prefetch of experts in Async,
-- the manifest of the bank in Bank.
pub mod Reads
pub mod Regions
pub mod Cache
pub mod Engram
pub mod Async
pub mod Bank
