-- ===== src/PrWatch/Pending/Entries.antt =====
-- The rows of `summarize_review_bots` of scripts/pr_watch.py: outages, pending entries, blockers and
-- the summary, and the variables of its loop over the check rows.
use agentic_dev_kit.Base.{ℕ, String, Bool, Option, List}
use agentic_dev_kit.Base.Json.{Fields}
use agentic_dev_kit.PrWatch.Coverage.{Review, Signal}

pub data Surface : Type 0 where
  comment check : Surface

-- an announced outage; a comment carries no identity and no trust
pub record Outage : Type 0 where
  pub bot : Option String
  pub surface : Surface
  pub place : String
  pub reason : String
  pub identity : String
  pub trusted : Bool

pub data AgeSource : Type 0 where
  observed stamped : AgeSource

pub data Cancel : Type 0 where
  outage grace : Cancel

pub record PendingEntry : Type 0 where
  pub bot : String
  pub check : String
  pub state : String
  pub since : Option String
  pub age_source : AgeSource
  pub age : ℕ
  pub blocking : Bool
  pub cancelled_by : Option Cancel
  pub identity : String
  pub trusted : Bool

-- a `merge_blockers` line for a bot that has not reported
pub record PendingBlocker : Type 0 where
  pub bot : String
  pub check : String
  pub age : ℕ

pub record ReviewBots : Type 0 where
  pub signal : Signal
  pub coverage : List Review
  pub objections : List Review
  pub comment_verdicts : List String
  pub unavailable : List Outage
  pub pending : List PendingEntry
  pub blockers : List PendingBlocker
  pub pending_since : Fields

-- the variables of the loop over the check rows
pub record Scan : Type 0 where
  pub observed : Fields
  pub unavailable : List Outage
  pub unavailable_bots : List String
  pub pending : List PendingEntry
