-- ===== src/Nvme/Reads.antt =====
-- The loops of `pread` and `preadv` calls of experiments/dsv41_nvme: the definitions in Defs, what
-- they read of the file in Slices and Filled, the loop of the rows in Rows, the loop of the
-- records in Records.
pub mod Defs
pub mod Slices
pub mod Filled
pub mod Rows
pub mod Records
pub mod Samples
mod Tests
