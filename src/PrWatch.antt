-- ===== src/PrWatch.antt =====
-- scripts/pr_watch.py: the poll/fix/acknowledge loop and the merge gate. Each child models one
-- part of the file; the proofs stand in the children of those.
pub mod Config
pub mod Clock
pub mod Checks
pub mod Reviewer
pub mod Comments
pub mod Coverage
pub mod Pending
pub mod State
pub mod Repo
pub mod Receipt
pub mod Gate
pub mod Poll
mod Examples
pub mod Delta
pub mod Disposition
pub mod Record
pub mod Pages
pub mod Rest
pub mod Budget
