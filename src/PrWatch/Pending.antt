-- ===== src/PrWatch/Pending.antt =====
-- `summarize_review_bots` and `review_owed` of scripts/pr_watch.py: each configured bot resolved to
-- unavailable, pending or neither. Ages are exact ticks; their rounding for display, and the
-- wording of a blocker, are left out. A stored clock value that is no text counts as unusable.
mod Entries
mod Clocks
unfoldable pub use Entries.*
unfoldable pub use Clocks.*
pub mod Forgery
pub mod Grace
use agentic_dev_kit.Base.{
  ℕ, String, Bool, true, false, ◌&&◌, not, Option, none, some, List, [], ◌∷◌, ◌++◌, map, leb,
  if◌then◌else◌, filter, elem, upper, or_text, ◌==◌, sorted_set,
}
use agentic_dev_kit.Base.Json.{Json, str, Fields, end, field, get, put, as_text}
use agentic_dev_kit.PrWatch.Config.{Config}
use agentic_dev_kit.PrWatch.Clock.{Clock, age_minutes}
use agentic_dev_kit.PrWatch.Checks.{CheckDetail, check_is_pending}
use agentic_dev_kit.PrWatch.Reviewer.{match_bot, match_bot_identity, review_unavailable_reason}
use agentic_dev_kit.PrWatch.Comments.{RawComment, Comment}
use agentic_dev_kit.PrWatch.Coverage.{
  Review, Signal, ok, skipped, unavailable, bot_review_coverage, bot_head_objections,
  bot_comment_verdicts,
}

module _ (cfg : Config) (bots : List String) where
  -- the loop over the comments
  unfoldable pub comment_outages : List Comment → List Outage
  comment_outages [] = []
  comment_outages (c ∷ cs) =
      let rest = comment_outages cs in
      elim c.unavailable [
        | none ↦ rest
        | some reason ↦
            record {
              bot = match_bot cfg (or_text (some c.author) "?") bots true;
              surface = comment;
              place = or_text (some c.author) "?";
              reason = reason;
              identity = "";
              trusted = false;
            }
            ∷ rest
      ]

  -- whether the row's creator may speak for the bot
  unfoldable pub is_trusted : String → String → Bool
  is_trusted identity bot = elim (match_bot_identity cfg identity bots) [
    | none ↦ false
    | some b ↦ b == bot
  ]

-- `str(check.get("name") or check.get("context") or "")`
abbrev pub detail_name : CheckDetail → String
detail_name d = or_text d.name (or_text d.context "")

module _ (clk : Clock) (cfg : Config) (bots : List String) (now : ℕ) where
  unfoldable pub pend_entry : CheckDetail → String → String → Reading → PendingEntry
  pend_entry d name bot r = record {
    bot = bot;
    check = name;
    state = upper (or_text d.state "");
    since = r.since;
    age_source = r.source;
    age = r.age;
    blocking = false;
    cancelled_by = none;
    identity = d.identity;
    trusted = is_trusted cfg bots d.identity bot;
  }

  -- the part of the loop below the outage test
  unfoldable pub pend : Scan → CheckDetail → String → String → Scan
  pend s d name bot =
      let r = read_clock clk now (as_text (get s.observed bot)) d.started_at in
      if check_is_pending d
      then record s {
        observed = note_clock s.observed bot r.source r.since;
        pending = s.pending ++ pend_entry d name bot r ∷ [];
      }
      else s

  unfoldable pub announce : Scan → CheckDetail → String → String → Option String → Scan
  announce s d name bot none = pend s d name bot
  announce s d name bot (some reason) =
      let trusted = is_trusted cfg bots d.identity bot in
      let s' = record s {
        unavailable =
            s.unavailable
            ++ record {
              bot = some bot;
              surface = check;
              place = name;
              reason = reason;
              identity = d.identity;
              trusted = trusted;
            }
              ∷ [];
      } in
      if trusted
      then record s' { unavailable_bots = bot ∷ s.unavailable_bots }
      else pend s' d name bot

  unfoldable pub scan_matched : Scan → CheckDetail → Option String → Scan
  scan_matched s d none = s
  scan_matched s d (some bot) =
      announce s d (detail_name d) bot (review_unavailable_reason cfg d.description none)

  -- one round of the loop
  unfoldable pub scan_detail : Scan → CheckDetail → Scan
  scan_detail s d = scan_matched s d (match_bot cfg (detail_name d) bots false)

  unfoldable pub scan_details : Scan → List CheckDetail → Scan
  scan_details s [] = s
  scan_details s (d ∷ ds) = scan_details (scan_detail s d) ds

module _ (cfg : Config) where
  -- the second loop's verdict on one pending entry
  unfoldable pub settle_entry : List String → PendingEntry → PendingEntry
  settle_entry gone e =
      if elem e.bot gone
      then record e { cancelled_by = some outage }
      else if leb cfg.bot_pending_grace e.age
      then record e { cancelled_by = some grace }
      else record e { blocking = true }

-- the blocker that a settled entry raises
unfoldable pub entry_blocker : PendingEntry → PendingBlocker
entry_blocker e = record { bot = e.bot; check = e.check; age = e.age }

-- `{bot: at for bot, at in observed.items() if bot in pending}`
unfoldable pub keep_bots : List String → Fields → Fields
keep_bots names end = end
keep_bots names (field b v fs) =
    let rest = keep_bots names fs in if elem b names then field b v rest else rest

module _ (clk : Clock) (cfg : Config) where
  -- `summarize_review_bots(...)`, over the configured bots and grace
  unfoldable pub summarize_review_bots :
      List CheckDetail
      → List Comment
      → ℕ
      → Fields
      → Signal
      → List RawComment
      → Option String
      → ReviewBots
  summarize_review_bots details comments now pending_since signal reviews head =
      let bots = cfg.bots in
      let s =
        scan_details clk cfg bots now
          (record {
            observed = pending_since;
            unavailable = comment_outages cfg bots comments;
            unavailable_bots = [];
            pending = [];
          })
          details in
      let pending = map (settle_entry cfg s.unavailable_bots) s.pending in
      record {
        signal = elim bots [ [] ↦ skipped | b ∷ bs ↦ signal ];
        coverage = bot_review_coverage cfg reviews head bots;
        objections = bot_head_objections cfg reviews head bots;
        comment_verdicts = bot_comment_verdicts cfg comments head bots;
        unavailable = s.unavailable;
        pending = pending;
        blockers = map entry_blocker (filter (λ e. e.blocking) pending);
        pending_since = keep_bots (map (λ e. e.bot) pending) s.observed;
      }

is_check : Surface → Bool
is_check check = true
is_check comment = false

-- the bots whose own check announced an outage under a trusted creator
unfoldable pub trusted_outages : List Outage → List String
unfolding is_check
trusted_outages [] = []
trusted_outages (o ∷ os) =
    let rest = trusted_outages os in
    elim o.bot [ none ↦ rest | some b ↦ if is_check o.surface && o.trusted then b ∷ rest else rest ]

-- the bots that `_covered_bots`, `_reviewing_trusted_bots` and the other two sets account for
unfoldable pub accounted : ReviewBots → List String
accounted r =
    map (λ e. e.bot) (filter (λ e. e.covers_head) r.coverage)
    ++ (map (λ e. e.bot) (filter (λ e. e.blocking && e.trusted) r.pending)
        ++ (r.comment_verdicts ++ trusted_outages r.unavailable))

-- `review_owed(review_bots)`; `none` where the read did not succeed
unfoldable pub review_owed : Config → ReviewBots → Option (List String)
review_owed cfg r = elim r.signal [
  | skipped ↦ some []
  | unavailable ↦ none
  | ok ↦ some (sorted_set (filter (λ b. not (elem b (accounted r))) cfg.bots))
]
