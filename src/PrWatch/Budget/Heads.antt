-- ===== src/PrWatch/Budget/Heads.antt =====
-- Which heads the summary of review rounds counts.
use agentic_dev_kit.Base.{
  suc, String, ◌≡◌, refl, ap, ◌∙◌, Bool, true, false, ◌&&◌, ◌||◌, not, Option, none, some, List, [],
  ◌∷◌, length, if◌then◌else◌, leb, any, arith, eq_iff, ◌==◌,
}
use agentic_dev_kit.Base.Json.{Json, Items, nil, cons}
use agentic_dev_kit.PrWatch.Config.{Config}
use agentic_dev_kit.PrWatch.Comments.{RawComment}
use agentic_dev_kit.PrWatch.Coverage.{Review, reduce_latest_bot_reviews}
use agentic_dev_kit.PrWatch.State.{round_head, recorded_review_rounds, has_round}
use agentic_dev_kit.PrWatch.Budget.{
  Reviewed, note_by, label_of, note_entry, note_rounds, note_reviews, is_outage, note_raws, is_head,
  review_round_summary,
}

is_head-note_by :
    (rs : List Reviewed) (head who h : String)
    → is_head h (note_by rs head who) ≡ (head == h || is_head h rs)
unfolding is_head any note_by
is_head-note_by [] head who h = refl
is_head-note_by (r ∷ rs) head who h =
    ground
      (arith, eq_iff r.head head, eq_iff r.head h, eq_iff head h, is_head-note_by rs head who h)

-- each head stands once
pub heads_once : List Reviewed → Bool
heads_once [] = true
heads_once (r ∷ rs) = not (is_head r.head rs) && heads_once rs

heads_once-note_by :
    (rs : List Reviewed) (head who : String)
    → heads_once rs ≡ true
    → heads_once (note_by rs head who) ≡ true
unfolding heads_once note_by is_head any
heads_once-note_by [] head who h = refl
heads_once-note_by (r ∷ rs) head who h = ground (
  arith,
  eq_iff r.head head,
  eq_iff head r.head,
  is_head-note_by rs head who r.head,
  heads_once-note_by rs head who,
)

-- how the first loop grows the heads
record Grown (given grown : List Reviewed) (more : String → Bool) : Type 0 where
  holds_head : (h : String) → is_head h grown ≡ (more h || is_head h given)
  keeps_once : heads_once given ≡ true → heads_once grown ≡ true

rounds_Grown :
    (rs : List Reviewed) (xs : Items) → Grown rs (note_rounds rs xs) (λ h. has_round h xs)
unfolding note_rounds has_round
rounds_Grown rs nil = record { holds_head = λ h. refl; keeps_once = λ o. o }
rounds_Grown rs (cons entry xs) =
    let first = go (round_head entry) in
    let next = rounds_Grown (note_entry rs (round_head entry) (label_of entry)) xs in
    record {
      holds_head = λ h.
          next.holds_head h
          ∙ (ap (λ b. has_round h xs || b) (first.0 h) ∙ swap (has_round h xs) _ (is_head h rs));
      keeps_once = λ o. next.keeps_once (first.1 o);
    }
  where
    swap : (a b c : Bool) → (a || (b || c)) ≡ ((b || a) || c)
    swap a b c = ground arith

    go :
        (o : Option String)
        → ((h : String)
            → is_head h (note_entry rs o (label_of entry))
              ≡ (elim o [ none ↦ false | some head ↦ head == h ] || is_head h rs))
          × (heads_once rs ≡ true → heads_once (note_entry rs o (label_of entry)) ≡ true)
    go none = unfold note_entry in (λ h. refl, λ o. o)
    go (some head) =
        unfold note_entry in
        (is_head-note_by rs head (label_of entry), heads_once-note_by rs head (label_of entry))

-- a submitted review of a head
unfoldable pub is_review_of : String → Review → Bool
is_review_of h r = not (r.state == "PENDING") && r.sha == h

reviews_Grown :
    (rs : List Reviewed) (revs : List Review)
    → Grown rs (note_reviews rs revs) (λ h. any (is_review_of h) revs)
unfolding note_reviews any is_review_of
reviews_Grown rs [] = record { holds_head = λ h. refl; keeps_once = λ o. o }
reviews_Grown rs (r ∷ revs) =
    let next = reviews_Grown (if r.state == "PENDING" then rs else note_by rs r.sha r.bot) revs in
    record {
      holds_head = λ h. ground (arith, next.holds_head h, is_head-note_by rs r.sha r.bot h);
      keeps_once = λ o. next.keeps_once (ground (arith, o, heads_once-note_by rs r.sha r.bot));
    }

-- whether the review object, read alone, is a configured bot's submitted review of a head
unfoldable pub is_bot_review_of : Config → Option String → String → RawComment → Bool
unfolding is_review_of
is_bot_review_of cfg head h raw =
    not (is_outage cfg raw.body)
    && any (is_review_of h) (reduce_latest_bot_reviews cfg (raw ∷ []) head cfg.bots none)

raws_Grown :
    (cfg : Config) (head : Option String) (rs : List Reviewed) (raws : List RawComment)
    → Grown rs (note_raws cfg head rs raws) (λ h. any (is_bot_review_of cfg head h) raws)
unfolding note_raws any is_bot_review_of
raws_Grown cfg head rs [] = record { holds_head = λ h. refl; keeps_once = λ o. o }
raws_Grown cfg head rs (raw ∷ raws) =
    let revs = reduce_latest_bot_reviews cfg (raw ∷ []) head cfg.bots none in
    let first = reviews_Grown rs revs in
    let next =
      raws_Grown cfg head (if is_outage cfg raw.body then rs else note_reviews rs revs) raws in
    record {
      holds_head = λ h. ground (arith, next.holds_head h, first.holds_head h);
      keeps_once = λ o. next.keeps_once (ground (arith, o, first.keeps_once));
    }

-- The heads that count against the round budget are each counted once, and are those that a usable
-- recorded round names and those that a configured bot submitted a review of, its outage notices
-- aside; the operator is asked for the next round exactly when they exceed the budget and the current
-- head is not among them.
pub review_round_summary-heads :
    (cfg : Config) (recorded : Option Json) (reviews : List RawComment) (head : String)
    → let s = review_round_summary cfg recorded reviews (some head) in
      let counts : String → Bool = λ h.
        has_round h (recorded_review_rounds recorded)
        || any (is_bot_review_of cfg (some head) h) reviews in
      ((h : String) → is_head h s.reviewed_heads ≡ counts h)
      × ((heads_once s.reviewed_heads ≡ true)
          × (s.next_round_needs_operator
              ≡ (leb (suc cfg.round_budget) (length s.reviewed_heads) && not (counts head))))
unfolding review_round_summary is_head heads_once any
review_round_summary-heads cfg recorded reviews head =
    let first = note_rounds [] (recorded_review_rounds recorded) in
    let f = rounds_Grown [] (recorded_review_rounds recorded) in
    let g = raws_Grown cfg (some head) first reviews in
    let counted : (h : String)
        → is_head h (note_raws cfg (some head) first reviews) ≡ (
            has_round h (recorded_review_rounds recorded)
            || any (is_bot_review_of cfg (some head) h) reviews) =
      λ h. ground (arith, g.holds_head h, f.holds_head h) in
    (
      counted,
      (
        g.keeps_once (f.keeps_once refl),
        ap
            (λ b.
              leb (suc cfg.round_budget) (length (note_raws cfg (some head) first reviews))
              && not b)
            (counted head),
      ),
    )
