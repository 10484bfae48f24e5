-- ===== src/Sweep.antt =====
-- scripts/sweep_scratch.py: which entries of a scratch root are stale, and their removal. The files
-- and what Git registers are parameters; times are clock ticks.
pub mod Paths
pub mod Disk
pub mod Classify
pub mod Apply
mod Examples
