-- ===== src/Systemize.antt =====
-- scripts/lib/systemize: the heartbeat of an engine-backed run, the identity that its artifacts
-- carry, and the digest of review findings.
pub mod Errors
pub mod Identity
pub mod Tokens
pub mod Heartbeat
pub mod Findings
pub mod Tally
pub mod Digest
mod Examples
