-- ===== src/PrWatch/Gate.antt =====
-- The merge gate of scripts/pr_watch.py: `decide_converged`, `decide_mergeable`, `decide_done` and
-- the evidence that `build_report` resolves. The report itself is built in the child `Report`.
pub mod Settle
pub mod Evidence
pub mod Report
pub mod Safety
pub mod Settling
pub mod Authorized
pub mod Refusals
use agentic_dev_kit.Base.{
  ℕ, String, Bool, true, false, ◌&&◌, not, Option, none, some, List, [], ◌∷◌, if◌then◌else◌, is_nil,
}
use agentic_dev_kit.Base.Json.{Json, Fields}
use agentic_dev_kit.PrWatch.Checks.{CheckRow, CheckDetail, ChecksReport}
use agentic_dev_kit.PrWatch.Comments.{RawComment, Comment}
use agentic_dev_kit.PrWatch.Coverage.{Signal}
use agentic_dev_kit.PrWatch.Pending.{PendingBlocker}
use agentic_dev_kit.PrWatch.State.{Settled}
use agentic_dev_kit.PrWatch.Receipt.{CoverageError}

-- the snapshot of a pull request, with its inline comments
pub record View : Type 0 where
  pub state : Option String
  pub is_draft : Bool
  pub base_ref : Option String
  pub base_oid : Option String
  pub merge_state : Option String
  pub review_decision : Option String
  pub head : Option String
  pub rollup : List CheckRow
  pub comments : List RawComment
  pub reviews : List RawComment
  pub inlines : List RawComment

-- what the poll carries over from the state file
pub record Prior : Type 0 where
  pub head : Option Json
  pub max_total : ℕ
  pub receipt : Option Json
  pub pending_since : Fields
  pub settle : Option Settled

pub data Backend : Type 0 where
  gh rest : Backend

-- the reads around the snapshot: the check rows, whether they could be read, the transport, and the
-- surfaces that could not be read
pub record Reads : Type 0 where
  pub details : List CheckDetail
  pub signal : Signal
  pub backend : Backend
  pub unavailable : List String

-- one line of `merge_blockers`
pub data Blocker : Type 0 where
  rest_poll_only : Blocker
  unread : String → Blocker
  not_open : String → Blocker
  draft : Blocker
  merge_state_is : String → Blocker
  changes_requested : Blocker
  bots_object : List String → Blocker
  coverage_invalid : CoverageError → Blocker
  no_evidence : Blocker
  repair_pending : Blocker
  not_settled : Option ℕ → Blocker
  bot_pending : PendingBlocker → Blocker
  -- the refusals of `persist_settle_baseline`
  state_unreadable state_not_object state_gone settle_unsaved : Blocker

-- `decide_converged(checks, new_items, settling=settling)`
unfoldable pub decide_converged : ChecksReport → List Comment → Bool → Bool
decide_converged checks new_items settling = checks.all_green && (is_nil new_items && not settling)

-- `decide_mergeable(converged, merge_blockers=…, review_evidence=…)`
unfoldable pub decide_mergeable : Bool → List Blocker → Bool → Bool
decide_mergeable converged merge_blockers review_evidence =
    converged && (is_nil merge_blockers && review_evidence)

-- `decide_done(...)`
unfoldable pub decide_done : ChecksReport → List Comment → List Blocker → Bool → Bool → Bool
unfolding decide_converged decide_mergeable
decide_done checks new_items merge_blockers review_evidence settling =
    decide_mergeable (decide_converged checks new_items settling) merge_blockers review_evidence
