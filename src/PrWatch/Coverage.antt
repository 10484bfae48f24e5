-- ===== src/PrWatch/Coverage.antt =====
-- What the configured bots' review objects say: `_coerce_review_timestamp`,
-- `_reduce_latest_bot_reviews`, `bot_review_coverage`, `bot_head_objections`,
-- `qualifying_bot_coverage`, `objecting_bot_coverage` and `bot_comment_verdicts` of
-- scripts/pr_watch.py. `latest` is a Python dict: a list of entries
-- with one entry for each bot, in insertion order.
pub mod Latest
pub mod Verdicts
use agentic_dev_kit.Base.{
  ℕ, String, Bool, true, false, ◌&&◌, ◌||◌, not, Option, none, some, List, [], ◌∷◌, ◌++◌, map,
  if◌then◌else◌, is_some, any, filter, elem, lower, upper, strip, contains, text_le, sorted_set,
  or_text, ◌==◌,
}
use agentic_dev_kit.PrWatch.Config.{Config}
use agentic_dev_kit.PrWatch.Reviewer.{match_bot}
use agentic_dev_kit.PrWatch.Comments.{
  CommitField, no_commit, commit_object, RawComment, Comment, author_of,
}

-- the coverage entry shape
pub record Review : Type 0 where
  pub bot : String
  pub sha : String
  pub submitted_at : String
  pub covers_head : Bool
  pub state : String

-- `_coerce_review_timestamp(raw)`: both spellings are one field of the model
unfoldable pub coerce_review_timestamp : RawComment → String
coerce_review_timestamp raw = elim raw.submitted_at [ none ↦ "" | some s ↦ s ]

unfoldable pub review_sha : RawComment → Option String
review_sha raw = elim raw.commit [ commit_object oid ↦ oid | no_commit ↦ raw.commit_id ]

unfoldable pub review_state : RawComment → String
review_state raw = elim raw.state [ none ↦ "" | some s ↦ upper (strip s) ]

unfoldable pub has_body : RawComment → Bool
has_body raw = elim raw.body [ none ↦ false | some s ↦ not (strip s == "") ]

-- The entry that one review contributes, `none` where the loop skips it: no configured bot wrote
-- it, it names no commit, or it is a `COMMENTED` object with no body.
unfoldable pub review_entry : Config → Option String → List String → RawComment → Option Review
review_entry cfg head bots raw = elim (match_bot cfg (author_of raw) bots true) [
  | none ↦ none
  | some bot ↦ elim (review_sha raw) [
    | none ↦ none
    | some sha ↦
        if sha == "" || (review_state raw == "COMMENTED" && not (has_body raw))
        then none
        else some (record {
          bot = bot;
          sha = sha;
          submitted_at = coerce_review_timestamp raw;
          covers_head = elim head [ none ↦ false | some h ↦ sha == h ];
          state = review_state raw;
        })
  ]
]

-- whether a state set lets a review take part; `none` lets every one
abbrev pub participates : Option (List String) → String → Bool
participates none state = true
participates (some states) state = elem state states

-- `if bot not in latest or submitted >= latest[bot]["submitted_at"]: latest[bot] = entry`
unfoldable pub displace : Review → List Review → List Review
displace e [] = e ∷ []
displace e (old ∷ latest) =
    let rest = displace e latest in
    if old.bot == e.bot
    then if text_le old.submitted_at e.submitted_at then e ∷ latest else old ∷ latest
    else old ∷ rest

unfoldable pub admit : Option (List String) → List Review → Option Review → List Review
admit states latest none = latest
admit states latest (some e) = if participates states e.state then displace e latest else latest

-- one round of the loop
unfoldable pub reduce_review :
    Config
    → Option String
    → List String
    → Option (List String)
    → List Review
    → RawComment
    → List Review
reduce_review cfg head bots states latest raw = admit states latest (review_entry cfg head bots raw)

unfoldable pub reduce_reviews :
    Config
    → Option String
    → List String
    → Option (List String)
    → List Review
    → List RawComment
    → List Review
reduce_reviews cfg head bots states latest [] = latest
reduce_reviews cfg head bots states latest (raw ∷ raws) =
    reduce_reviews cfg head bots states (reduce_review cfg head bots states latest raw) raws

-- `sorted(…, key=submitted_at, reverse=True)`, a stable sort: entries of one time keep their order
unfoldable pub insert_newest : Review → List Review → List Review
insert_newest e [] = e ∷ []
insert_newest e (x ∷ xs) =
    let rest = insert_newest e xs in
    if text_le x.submitted_at e.submitted_at then e ∷ x ∷ xs else x ∷ rest

unfoldable pub newest_first : List Review → List Review
newest_first [] = []
newest_first (e ∷ es) = insert_newest e (newest_first es)

-- `_reduce_latest_bot_reviews(reviews, head, bots, states=states)`
unfoldable pub reduce_latest_bot_reviews :
    Config → List RawComment → Option String → List String → Option (List String) → List Review
reduce_latest_bot_reviews cfg reviews head bots states =
    newest_first (reduce_reviews cfg head bots states [] reviews)

abbrev pub evidential_states : List String
evidential_states = "APPROVED" ∷ "COMMENTED" ∷ []

abbrev pub objecting_states : List String
objecting_states = "CHANGES_REQUESTED" ∷ []

abbrev pub verdict_states : List String
verdict_states = "APPROVED" ∷ "CHANGES_REQUESTED" ∷ "DISMISSED" ∷ []

-- `bot_review_coverage(reviews, head, bots=bots)`
unfoldable pub bot_review_coverage :
    Config → List RawComment → Option String → List String → List Review
bot_review_coverage cfg reviews head bots = reduce_latest_bot_reviews cfg reviews head bots none

-- `bot_head_objections(reviews, head, bots=bots)`
unfoldable pub bot_head_objections :
    Config → List RawComment → Option String → List String → List Review
bot_head_objections cfg reviews head bots =
    reduce_latest_bot_reviews cfg reviews head bots (some verdict_states)

-- the clauses that both gate reads apply to an entry
unfoldable pub stands_at : String → List String → Review → Bool
stands_at head states e =
    e.covers_head && (e.sha == head && (elem e.state states && not (e.bot == "")))

-- `signal` of the review-bot read
pub data Signal : Type 0 where
  ok skipped unavailable : Signal

abbrev pub is_ok : Signal → Bool
is_ok ok = true
is_ok _ = false

-- an absent or empty head binds nothing
abbrev pub real_head : Option String → Option String
real_head none = none
real_head (some h) = if h == "" then none else some h

unfoldable pub qualifying_at : Signal → List Review → Option String → List String
qualifying_at signal coverage none = []
qualifying_at signal coverage (some h) =
    if is_ok signal
    then sorted_set (map (λ e. e.bot) (filter (stands_at h evidential_states) coverage))
    else []

-- `qualifying_bot_coverage(review_bots, head)`
unfoldable pub qualifying_bot_coverage : Signal → List Review → Option String → List String
unfolding qualifying_at
qualifying_bot_coverage signal coverage head = qualifying_at signal coverage (real_head head)

unfoldable pub objecting_at : List Review → Option String → List String
objecting_at objections none = []
objecting_at objections (some h) =
    sorted_set (map (λ e. e.bot) (filter (stands_at h objecting_states) objections))

-- `objecting_bot_coverage(review_bots, head)`
unfoldable pub objecting_bot_coverage : List Review → Option String → List String
unfolding objecting_at
objecting_bot_coverage objections head = objecting_at objections (real_head head)

-- the bot whose comment announces a completed review of `head`
unfoldable pub verdict_bot : Config → String → List String → Comment → Option String
verdict_bot cfg head bots c = elim (match_bot cfg (or_text (some c.author) "?") bots true) [
  | none ↦ none
  | some bot ↦
      let low = lower c.body in
      if any (contains low) cfg.comment_verdict_markers
        && (not (any (contains low) cfg.unavailable_markers) && contains low (lower head))
      then some bot
      else none
]

verdict_bots : Config → String → List String → List Comment → List String
verdict_bots cfg head bots [] = []
verdict_bots cfg head bots (c ∷ cs) =
    let rest = verdict_bots cfg head bots cs in
    elim (verdict_bot cfg head bots c) [ none ↦ rest | some bot ↦ bot ∷ rest ]

-- `bot_comment_verdicts(comments, head, bots=bots)`: the bots, sorted; each `sha` is the head
unfoldable pub bot_comment_verdicts :
    Config → List Comment → Option String → List String → List String
unfolding verdict_bots
bot_comment_verdicts cfg comments head bots = elim (real_head head) [
  | none ↦ []
  | some h ↦ sorted_set (verdict_bots cfg h bots comments)
]
