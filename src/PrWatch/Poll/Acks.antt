-- ===== src/PrWatch/Poll/Acks.antt =====
-- A poll, `--mark-seen`, and the poll after it; and what `persist_settle_baseline` withdraws.
use agentic_dev_kit.Base.{
  ℕ, String, ◌≡◌, refl, ap, ◌∙◌, Bool, true, false, ◌||◌, some, List, elem, elem-sorted_set, all,
}
use agentic_dev_kit.Base.Json.{arr, end, get, get-put, text_items}
use agentic_dev_kit.PrWatch.Config.{Config}
use agentic_dev_kit.PrWatch.Clock.{Clock}
use agentic_dev_kit.PrWatch.Repo.{Repo}
use agentic_dev_kit.PrWatch.Comments.{Digest, collect_comments, new_actionable, seen_keys}
use agentic_dev_kit.PrWatch.Comments.Acks.{without_token, new_actionable-acked}
use agentic_dev_kit.PrWatch.State.{StateFile, load_state, seen_of, put_seen, mark_seen}
use agentic_dev_kit.PrWatch.State.Acks.{elem-mark_seen, seen_of-put_seen}
use agentic_dev_kit.PrWatch.Gate.{View, Reads}
use agentic_dev_kit.PrWatch.Gate.Report.{Report, build_report}
use agentic_dev_kit.PrWatch.Poll.{
  put_settle_baseline, poll_state, persist_poll, poll_report, plain_poll,
}
use agentic_dev_kit.PrWatch.Poll.Ageing.{
  get-carry_receipt, get-carry_rounds, get-write_pending_since,
}

pending_seen-persist_poll :
    (file : StateFile) (r : Report) (seen : List String)
    → get (persist_poll file r seen) "pending_seen" ≡ some (arr (text_items r.all_seen_keys))
unfolding persist_poll poll_state
pending_seen-persist_poll file r seen =
    simp (get-carry_rounds, get-carry_receipt, get-write_pending_since, get-put)

get-seen :
    (file : StateFile) (r : Report) (seen : List String)
    → get (persist_poll file r seen) "seen" ≡ get (put_seen end seen) "seen"
unfolding persist_poll poll_state put_settle_baseline
get-seen file r seen = simp (get-carry_rounds, get-carry_receipt, get-write_pending_since, get-put)

seen_of-persist_poll :
    (file : StateFile) (r : Report) (seen : List String) (k : String)
    → elem k (seen_of (persist_poll file r seen)) ≡ elem k seen
unfolding seen_of
seen_of-persist_poll file r seen k =
    rw (get-seen file r seen) (ap (elem k) (seen_of-put_seen end seen) ∙ elem-sorted_set k seen)

-- After a plain poll, `mark_seen` acknowledges what was acknowledged before and the keys of that
-- poll's own comments, and nothing else.
pub mark_seen-persist_poll :
    (file : StateFile) (r : Report) (seen : List String) (k : String)
    → elem k (seen_of (mark_seen (persist_poll file r seen)).0)
      ≡ (elem k seen || elem k r.all_seen_keys)
mark_seen-persist_poll file r seen k =
    elem-mark_seen (persist_poll file r seen) r.all_seen_keys k
      (pending_seen-persist_poll file r seen)
    ∙ ap (λ b. b || elem k r.all_seen_keys) (seen_of-persist_poll file r seen k)

reported_keys :
    (clk : Clock) (cfg : Config) (dg : Digest) (repo : Repo) (file : StateFile) (view : View)
    (reads : Reads) (now : ℕ) (k : String)
    → elem k (poll_report clk cfg dg repo file view reads now).all_seen_keys
      ≡ elem k (seen_keys (collect_comments dg cfg view.comments view.reviews view.inlines))
unfolding poll_report build_report
reported_keys clk cfg dg repo file view reads now k = elem-sorted_set k _

or_true : (b : Bool) → (b || true) ≡ true
or_true true = refl
or_true false = refl

-- A plain poll and then `--mark-seen`: of the very comments that the poll saw, the next poll finds
-- actionable only those that carry no occurrence token.
pub acknowledged_poll :
    (clk : Clock) (cfg : Config) (dg : Digest) (repo : Repo) (file : StateFile) (view : View)
    (reads : Reads) (now : ℕ)
    → all without_token (
        new_actionable cfg
          (collect_comments dg cfg view.comments view.reviews view.inlines)
          (seen_of (mark_seen (plain_poll clk cfg dg repo file view reads now).0).0))
      ≡ true
unfolding plain_poll
acknowledged_poll clk cfg dg repo file view reads now =
    let comments = collect_comments dg cfg view.comments view.reviews view.inlines in
    let r = poll_report clk cfg dg repo file view reads now in
    let seen = seen_of (load_state file) in
    new_actionable-acked cfg comments (seen_of (mark_seen (persist_poll file r seen)).0) (λ k m.
      mark_seen-persist_poll file r seen k
      ∙ ap (λ b. elem k seen || b) (reported_keys clk cfg dg repo file view reads now k ∙ m)
      ∙ or_true (elem k seen))
