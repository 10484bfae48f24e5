-- ===== src/PrWatch/Budget.antt =====
-- `review_round_summary` of scripts/pr_watch.py: the heads that a review covered, against the budget.
pub mod Heads
use agentic_dev_kit.Base.{
  ℕ, suc, String, Bool, true, false, ◌&&◌, not, Option, none, some, List, [], ◌∷◌, ◌++◌, length,
  is_some, if◌then◌else◌, leb, any, elem, strip, ◌==◌,
}
use agentic_dev_kit.Base.Json.{Json, obj, Items, nil, cons, Fields, get, as_text}
use agentic_dev_kit.PrWatch.Config.{Config}
use agentic_dev_kit.PrWatch.Reviewer.{review_unavailable_reason}
use agentic_dev_kit.PrWatch.Comments.{RawComment}
use agentic_dev_kit.PrWatch.Coverage.{Review, reduce_latest_bot_reviews}
use agentic_dev_kit.PrWatch.State.{round_head, recorded_review_rounds}

-- one item of `heads`: a head and those who reviewed it
pub record Reviewed : Type 0 where
  pub head : String
  pub by : List String

-- `by = heads.setdefault(head, [])`, and the reviewer appended if it is not there
unfoldable pub note_by : List Reviewed → String → String → List Reviewed
note_by [] head who = (record { head = head; by = who ∷ [] }) ∷ []
note_by (r ∷ rs) head who =
    let rest = note_by rs head who in
    if r.head == head
    then (if elem who r.by then r ∷ rs else (record r { by = r.by ++ who ∷ [] }) ∷ rs)
    else r ∷ rest

or_recorded : Option String → String
or_recorded none = "recorded"
or_recorded (some source) = if strip source == "" then "recorded" else source

unfoldable pub label_of : Json → String
unfolding or_recorded
label_of (obj entry) = or_recorded (as_text (get entry "source"))
label_of _ = "recorded"

note_entry : List Reviewed → Option String → String → List Reviewed
note_entry heads none label = heads
note_entry heads (some head) label = note_by heads head label

-- the loop over the recorded rounds
unfoldable pub note_rounds : List Reviewed → Items → List Reviewed
unfolding note_entry note_by
note_rounds heads nil = heads
note_rounds heads (cons entry rest) =
    note_rounds (note_entry heads (round_head entry) (label_of entry)) rest

unfoldable pub note_reviews : List Reviewed → List Review → List Reviewed
unfolding note_by
note_reviews heads [] = heads
note_reviews heads (r ∷ rs) =
    note_reviews (if r.state == "PENDING" then heads else note_by heads r.sha r.bot) rs

-- a review that announces that there is none
unfoldable pub is_outage : Config → Option String → Bool
is_outage cfg none = false
is_outage cfg (some body) = is_some (review_unavailable_reason cfg body none)

-- the loop over the reviews, each one read alone
unfoldable pub note_raws : Config → Option String → List Reviewed → List RawComment → List Reviewed
unfolding is_outage note_reviews
note_raws cfg head heads [] = heads
note_raws cfg head heads (raw ∷ raws) =
    note_raws cfg head
      (if is_outage cfg raw.body
        then heads
        else note_reviews heads (reduce_latest_bot_reviews cfg (raw ∷ []) head cfg.bots none))
      raws

pub record Summary : Type 0 where
  pub reviewed_heads : List Reviewed
  pub count : ℕ
  pub budget : ℕ
  pub limit : ℕ
  pub spent : Bool
  pub head_reviewed : Bool
  pub next_round_needs_operator : Bool

-- `head in heads`
unfoldable pub is_head : String → List Reviewed → Bool
is_head head rs = any (λ r. r.head == head) rs

abbrev pub at_head : Option String → List Reviewed → Bool
at_head none rs = false
at_head (some head) rs = any (λ r. r.head == head) rs

-- `review_round_summary(recorded, reviews, head)`
unfoldable pub review_round_summary :
    Config → Option Json → List RawComment → Option String → Summary
unfolding note_rounds note_raws
review_round_summary cfg recorded reviews head =
    let heads = note_raws cfg head (note_rounds [] (recorded_review_rounds recorded)) reviews in
    let count = length heads in
    let limit = suc cfg.round_budget in
    record {
      reviewed_heads = heads;
      count = count;
      budget = cfg.round_budget;
      limit = limit;
      spent = leb limit count;
      head_reviewed = at_head head heads;
      next_round_needs_operator = leb limit count && not (at_head head heads);
    }
