-- ===== src/PrWatch/Examples.antt =====
-- Test data for scripts/pr_watch.py, and its theorems applied to it.
mod Setup
mod Checks
mod Gate
mod Reviews
mod Polls
mod Receipts
mod Grace
mod Carried
mod Records
mod Transport
mod Rounds
