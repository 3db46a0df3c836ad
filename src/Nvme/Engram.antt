-- ===== src/Nvme/Engram.antt =====
-- The cache of embedding rows of experiments/dsv41_nvme/engram_rows.py: the requests in Defs, the
-- cache in Store, what is read of the tables in Fetch, what a request returns in Payloads, the
-- calls of the object in Gather.
pub mod Store
pub mod Defs
pub mod Calls
mod Cached
mod Fetch
mod Written
pub mod Payloads
pub mod Gather
pub mod Pending
pub mod History
mod Tests
