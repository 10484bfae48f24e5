-- ===== src/PrWatch/Coverage/Verdicts.antt =====
-- Which submissions move the merge gate's two readings of the configured bots' reviews.
use agentic_dev_kit.Base.{
  String, ◌≡◌, refl, ap, ◌∙◌, true, false, ◌&&◌, Option, none, some, List, [], ◌∷◌, ◌++◌, arith,
  Option-cases, inl, inr, eq_iff, eq_refl, elem, text_le, ◌==◌,
}
use agentic_dev_kit.PrWatch.Config.{Config}
use agentic_dev_kit.PrWatch.Comments.{RawComment}
use agentic_dev_kit.PrWatch.Coverage.{
  Review, Signal, ok, skipped, unavailable, is_ok, real_head, newest_first, review_state, has_body,
  review_entry, admit, reduce_review, reduce_reviews, reduce_latest_bot_reviews,
  bot_review_coverage, bot_head_objections, verdict_states, evidential_states, objecting_states,
  stands_at, qualifying_at, objecting_at, qualifying_bot_coverage, objecting_bot_coverage,
}
use agentic_dev_kit.PrWatch.Coverage.Latest.{newer, kept, next_of, says, latest_of, elem-reduced}

module _ (cfg : Config) (head : Option String) (bots : List String)
    (states : Option (List String)) where
  -- a submission that is not kept changes nothing, wherever it stands
  reduce_reviews-skip :
      (xs ys : List RawComment) (raw : RawComment) (es : List Review)
      → ((es : List Review) → admit states es (review_entry cfg head bots raw) ≡ es)
      → reduce_reviews cfg head bots states es (xs ++ raw ∷ ys)
        ≡ reduce_reviews cfg head bots states es (xs ++ ys)
  unfolding reduce_reviews reduce_review
  reduce_reviews-skip [] ys raw es h = ap (λ l. reduce_reviews cfg head bots states l ys) (h es)
  reduce_reviews-skip (x ∷ xs) ys raw es h =
      reduce_reviews-skip xs ys raw (admit states es (review_entry cfg head bots x)) h

  latest_of-snoc :
      (b : String) (sofar : Option Review) (xs : List RawComment) (raw : RawComment)
      → latest_of cfg head bots states b sofar (xs ++ raw ∷ [])
        ≡ next_of b
            (latest_of cfg head bots states b sofar xs)
            (kept states (review_entry cfg head bots raw))
  unfolding latest_of
  latest_of-snoc b sofar [] raw = refl
  latest_of-snoc b sofar (x ∷ xs) raw =
      latest_of-snoc b (next_of b sofar (kept states (review_entry cfg head bots x))) xs raw

state_of_entry :
    (cfg : Config) (head : Option String) (bots : List String) (raw : RawComment) (e : Review)
    → review_entry cfg head bots raw ≡ some e
    → e.state ≡ review_state raw
unfolding review_entry
state_of_entry cfg head bots raw e h = ground arith

newer_dated :
    (sofar : Option Review) (e : Review)
    → ((old : Review) → sofar ≡ some old → text_le old.submitted_at e.submitted_at ≡ true)
    → newer sofar e ≡ e
unfolding newer
newer_dated none e h = refl
newer_dated (some old) e h = rw (h old refl)

kept_newest :
    (sofar : Option Review) (e : Review)
    → elem e.state verdict_states ≡ true
    → ((old : Review) → sofar ≡ some old → text_le old.submitted_at e.submitted_at ≡ true)
    → next_of e.bot sofar (kept (some verdict_states) (some e)) ≡ some e
unfolding next_of kept
kept_newest sofar e v h = rw v (rw (eq_refl e.bot) (ap some (newer_dated sofar e h)))

admit_nonverdict :
    (cfg : Config) (head : Option String) (bots : List String) (raw : RawComment)
    → elem (review_state raw) verdict_states ≡ false
    → (es : List Review) → admit (some verdict_states) es (review_entry cfg head bots raw) ≡ es
unfolding admit
admit_nonverdict cfg head bots raw h es = elim (Option-cases (review_entry cfg head bots raw)) [
  | inl none_e ↦ rw none_e
  | inr (e, some_e) ↦ rw some_e (rw (state_of_entry cfg head bots raw e some_e) (rw h))
]

-- A submission whose state is no verdict (`COMMENTED`, `PENDING`, an unknown one) changes no
-- standing objection, wherever it stands among the submissions and whoever wrote it.
pub bot_head_objections-nonverdict :
    (cfg : Config) (xs ys : List RawComment) (raw : RawComment) (head : Option String)
    (bots : List String)
    → elem (review_state raw) verdict_states ≡ false
    → bot_head_objections cfg (xs ++ raw ∷ ys) head bots
      ≡ bot_head_objections cfg (xs ++ ys) head bots
unfolding bot_head_objections reduce_latest_bot_reviews
bot_head_objections-nonverdict cfg xs ys raw head bots h = ap newest_first (
    reduce_reviews-skip cfg head bots (some verdict_states) xs ys raw []
      (admit_nonverdict cfg head bots raw h))

no_entry :
    (cfg : Config) (head : Option String) (bots : List String) (raw : RawComment)
    → review_state raw ≡ "COMMENTED"
    → has_body raw ≡ false
    → review_entry cfg head bots raw ≡ none
unfolding review_entry
no_entry cfg head bots raw s b = ground (arith, eq_iff (review_state raw) "COMMENTED")

-- A `COMMENTED` submission with no text (the object around a reply on a thread) changes neither
-- which commits the bots cover nor what they object to.
pub bodyless_comment_ignored :
    (cfg : Config) (xs ys : List RawComment) (raw : RawComment) (head : Option String)
    (bots : List String)
    → review_state raw ≡ "COMMENTED"
    → has_body raw ≡ false
    → (bot_review_coverage cfg (xs ++ raw ∷ ys) head bots
        ≡ bot_review_coverage cfg (xs ++ ys) head bots)
      × (bot_head_objections cfg (xs ++ raw ∷ ys) head bots
          ≡ bot_head_objections cfg (xs ++ ys) head bots)
unfolding bot_review_coverage bot_head_objections reduce_latest_bot_reviews admit
bodyless_comment_ignored cfg xs ys raw head bots s b = (
  ap newest_first (
      reduce_reviews-skip cfg head bots none xs ys raw []
        (λ es. rw (no_entry cfg head bots raw s b))),
  ap newest_first (
      reduce_reviews-skip cfg head bots (some verdict_states) xs ys raw []
        (λ es. rw (no_entry cfg head bots raw s b))),
)

real : (head : String) → (head == "") ≡ false → real_head (some head) ≡ some head
real head h = rw h

qualifying_read :
    (cfg : Config) (signal : Signal) (raws : List RawComment) (head : String) (bots : List String)
    (b : String)
    → elem b (qualifying_at signal (bot_review_coverage cfg raws (some head) bots) (some head)) ≡ (
        is_ok signal
        && says
            (stands_at head evidential_states)
            (latest_of cfg (some head) bots none b none raws))
unfolding qualifying_at bot_review_coverage elem
qualifying_read cfg ok raws head bots b =
    elem-reduced cfg raws (some head) bots none b (stands_at head evidential_states)
qualifying_read cfg skipped raws head bots b = refl
qualifying_read cfg unavailable raws head bots b = refl

-- A bot supplies review evidence for a head exactly when the check read succeeded and the bot's
-- latest submission, of whatever state, covers that head in an evidential state.
pub qualifying_iff :
    (cfg : Config) (signal : Signal) (raws : List RawComment) (head : String) (bots : List String)
    (b : String)
    → (head == "") ≡ false
    → elem b
        (qualifying_bot_coverage signal (bot_review_coverage cfg raws (some head) bots) (some head))
      ≡ (is_ok signal
          && says
              (stands_at head evidential_states)
              (latest_of cfg (some head) bots none b none raws))
unfolding qualifying_bot_coverage
qualifying_iff cfg signal raws head bots b h =
    ap (λ o. elem b (qualifying_at signal (bot_review_coverage cfg raws (some head) bots) o))
      (real head h)
    ∙ qualifying_read cfg signal raws head bots b

-- A bot objects to a head exactly when its latest verdict covers that head and requests changes;
-- submissions that carry no verdict are not read.
pub objecting_iff :
    (cfg : Config) (raws : List RawComment) (head : String) (bots : List String) (b : String)
    → (head == "") ≡ false
    → elem b (objecting_bot_coverage (bot_head_objections cfg raws (some head) bots) (some head))
      ≡ says
          (stands_at head objecting_states)
          (latest_of cfg (some head) bots (some verdict_states) b none raws)
unfolding objecting_bot_coverage objecting_at bot_head_objections
objecting_iff cfg raws head bots b h =
    ap (λ o. elem b (objecting_at (bot_head_objections cfg raws (some head) bots) o)) (real head h)
    ∙ (elem-reduced cfg raws (some head) bots (some verdict_states) b
        (stands_at head objecting_states))

-- The reviewer's own newest verdict decides: after a verdict that is dated no earlier than the
-- bot's verdicts before it, the bot objects exactly if that verdict covers the head and requests
-- changes. So a later approval or dismissal of the bot clears its objection.
pub newest_verdict_decides :
    (cfg : Config) (xs : List RawComment) (raw : RawComment) (head : String) (bots : List String)
    (e : Review)
    → (head == "") ≡ false
    → review_entry cfg (some head) bots raw ≡ some e
    → elem e.state verdict_states ≡ true
    → ((old : Review)
        → latest_of cfg (some head) bots (some verdict_states) e.bot none xs ≡ some old
        → text_le old.submitted_at e.submitted_at ≡ true)
    → elem e.bot (
        objecting_bot_coverage
          (bot_head_objections cfg (xs ++ raw ∷ []) (some head) bots)
          (some head))
      ≡ stands_at head objecting_states e
newest_verdict_decides cfg xs raw head bots e h entry verdict dated =
    objecting_iff cfg (xs ++ raw ∷ []) head bots e.bot h
    ∙ ap (says (stands_at head objecting_states)) {y = some e} (
        latest_of-snoc cfg (some head) bots (some verdict_states) e.bot none xs raw
        ∙ rw entry (
            kept_newest (latest_of cfg (some head) bots (some verdict_states) e.bot none xs) e
              verdict dated))
