-- ===== src/Triage.antt =====
-- scripts/lib/triage: the commands with which an operator answers a batch of proposals.
pub mod Commands
pub mod Approval
pub mod Outcome
pub mod Gate
mod Examples
