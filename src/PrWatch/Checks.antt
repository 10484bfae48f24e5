-- ===== src/PrWatch/Checks.antt =====
-- `summarize_checks` and `_check_is_pending` of scripts/pr_watch.py: the check rollup.
pub mod Counts
use agentic_dev_kit.Base.{
  ℕ, ◌+◌, ◌-◌, String, Bool, true, false, ◌&&◌, ◌||◌, not, Option, List, [], ◌∷◌, ◌++◌, ltb, eqb,
  if◌then◌else◌, length, is_nil, elem, lower, upper, strip, or_text, ◌==◌,
}
use agentic_dev_kit.PrWatch.Config.{Config}

-- A row of `statusCheckRollup`: its fields are texts or missing.
pub record CheckRow : Type 0 where
  pub conclusion : Option String
  pub state : Option String
  pub name : Option String
  pub context : Option String

pub record FailingCheck : Type 0 where
  pub name : String
  pub status : String

pub record ChecksReport : Type 0 where
  pub total : ℕ
  pub success : ℕ
  pub pending : ℕ
  pub informational : ℕ
  pub informational_non_green : ℕ
  pub failing : List FailingCheck
  pub all_green : Bool

abbrev pub terminal_ok : List String
terminal_ok = "SUCCESS" ∷ "NEUTRAL" ∷ "SKIPPED" ∷ []

abbrev pub bad_states : List String
bad_states =
    "FAILURE" ∷ "ERROR" ∷ "CANCELLED" ∷ "TIMED_OUT" ∷ "ACTION_REQUIRED" ∷ "STARTUP_FAILURE" ∷ []

unfoldable pub check_status : CheckRow → String
check_status c = upper (or_text c.conclusion (or_text c.state ""))

unfoldable pub check_name : CheckRow → String
check_name c = or_text c.name (or_text c.context "check")

unfoldable pub is_informational : Config → CheckRow → Bool
is_informational cfg c = elem (lower (strip (check_name c))) cfg.informational_checks

-- the variables of the loop
pub record Tally : Type 0 where
  pub success : ℕ
  pub pending : ℕ
  pub informational : ℕ
  pub informational_non_green : ℕ
  pub failing : List FailingCheck

abbrev pub no_checks : Tally
no_checks = record {
  success = 0;
  pending = 0;
  informational = 0;
  informational_non_green = 0;
  failing = [];
}

-- one round of the loop
unfoldable pub count_check : Config → Tally → CheckRow → Tally
count_check cfg t c =
    let status = check_status c in
    if is_informational cfg c
    then record t {
      informational = t.informational + 1;
      informational_non_green =
          if elem status terminal_ok
          then t.informational_non_green
          else t.informational_non_green + 1;
    }
    else if elem status terminal_ok
    then record t { success = t.success + 1 }
    else if elem status bad_states
    then record t { failing = t.failing ++ record { name = check_name c; status = status } ∷ [] }
    else record t { pending = t.pending + 1 }

unfoldable pub count_checks : Config → Tally → List CheckRow → Tally
count_checks cfg t [] = t
count_checks cfg t (c ∷ rows) = count_checks cfg (count_check cfg t c) rows

-- `summarize_checks(rollup)`, with `require_ci` from the configuration
unfoldable pub summarize_checks : Config → List CheckRow → ChecksReport
summarize_checks cfg rollup =
    let t = count_checks cfg no_checks rollup in
    let blocking_total = length rollup - t.informational in
    record {
      total = length rollup;
      success = t.success;
      pending = t.pending;
      informational = t.informational;
      informational_non_green = t.informational_non_green;
      failing = t.failing;
      all_green =
          is_nil t.failing && (eqb t.pending 0 && (ltb 0 blocking_total || not cfg.require_ci));
    }

abbrev pub terminal_check_states : List String
terminal_check_states = terminal_ok ++ bad_states

-- A row of `fetch_check_details`. `description` and `identity` are read as `... or ""`.
pub record CheckDetail : Type 0 where
  pub name : Option String
  pub context : Option String
  pub bucket : Option String
  pub state : Option String
  pub description : String
  pub started_at : Option String
  pub identity : String

-- `_check_is_pending(detail)`
unfoldable pub check_is_pending : CheckDetail → Bool
check_is_pending d =
    let bucket = lower (strip (or_text d.bucket "")) in
    if bucket == ""
    then not (elem (upper (strip (or_text d.state ""))) terminal_check_states)
    else bucket == "pending"
