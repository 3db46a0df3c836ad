-- ===== src/Nvme/Async.antt =====
-- The bounded prefetch of experts of experiments/dsv41_nvme/async_store.py: the operations on the
-- tickets in Defs, what every operation keeps in Steps, the histories of operations in History,
-- how the plan is worked off in Progress.
pub mod Defs
mod Tickets
pub mod Steps
pub mod Operations
pub mod History
pub mod Progress
mod Tests
