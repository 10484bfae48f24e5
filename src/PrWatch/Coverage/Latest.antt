-- ===== src/PrWatch/Coverage/Latest.antt =====
-- The dictionary of latest reviews against a reading of it bot by bot.
use agentic_dev_kit.Base.{
  String, ◌≡◌, refl, ap, ◌∙◌, inl, inr, Bool, false, ◌&&◌, ◌||◌, Option, none, some, List, [], ◌∷◌,
  map, arith, if◌then◌else◌, Bool-cases, any, filter, elem, text_le, sorted_set, elem-sorted_set,
  eq_iff, ◌==◌,
}
use agentic_dev_kit.PrWatch.Config.{Config}
use agentic_dev_kit.PrWatch.Comments.{RawComment}
use agentic_dev_kit.PrWatch.Coverage.{
  Review, review_entry, participates, displace, admit, reduce_review, reduce_reviews, insert_newest,
  newest_first, reduce_latest_bot_reviews,
}

-- the entry of a bot
unfoldable pub entry_of : String → List Review → Option Review
entry_of b [] = none
entry_of b (e ∷ es) = let rest = entry_of b es in if e.bot == b then some e else rest

-- of two entries of one bot the later one stays, unless it is dated earlier
unfoldable pub newer : Option Review → Review → Review
newer none e = e
newer (some old) e = if text_le old.submitted_at e.submitted_at then e else old

pub entry_of-displace :
    (b : String) (e : Review) (es : List Review)
    → entry_of b (displace e es)
      ≡ (if e.bot == b then some (newer (entry_of b es) e) else entry_of b es)
unfolding entry_of displace newer
entry_of-displace b e [] = refl
entry_of-displace b e (x ∷ es) =
    ground (arith, entry_of-displace b e es, eq_iff x.bot e.bot, eq_iff x.bot b, eq_iff e.bot b)

-- no bot has two entries
abbrev pub Distinct : List Review → Type 0
Distinct [] = Unit
Distinct (e ∷ es) = (entry_of e.bot es ≡ none) × Distinct es

displace-Distinct : (e : Review) (es : List Review) → Distinct es → Distinct (displace e es)
unfolding displace entry_of
displace-Distinct e [] d = (refl, tt)
displace-Distinct e (x ∷ es) d = elim (Bool-cases (x.bot == e.bot)) [
  | inl same ↦ elim (Bool-cases (text_le x.submitted_at e.submitted_at)) [
    | inl t ↦ rw (same, t) (rw (← (eq_iff x.bot e.bot).0 same) d.0, d.1)
    | inr t ↦ rw (same, t) d
  ]
  | inr other ↦ rw other (
    ground (arith, entry_of-displace x.bot e es, eq_iff x.bot e.bot, eq_iff e.bot x.bot),
    displace-Distinct e es d.1,
  )
]

-- the review that counts of one submission, if it counts
unfoldable pub kept : Option (List String) → Option Review → Option Review
kept states none = none
kept states (some e) = if participates states e.state then some e else none

-- one bot's latest review after one more submission
unfoldable pub next_of : String → Option Review → Option Review → Option Review
next_of b sofar none = sofar
next_of b sofar (some e) = if e.bot == b then some (newer sofar e) else sofar

entry_of-admit :
    (b : String) (states : Option (List String)) (es : List Review) (o : Option Review)
    → entry_of b (admit states es o) ≡ next_of b (entry_of b es) (kept states o)
unfolding admit kept next_of
entry_of-admit b states es none = refl
entry_of-admit b states es (some e) = ground (arith, entry_of-displace b e es)

admit-Distinct :
    (states : Option (List String)) (es : List Review) (o : Option Review)
    → Distinct es
    → Distinct (admit states es o)
unfolding admit
admit-Distinct states es none d = d
admit-Distinct states es (some e) d = elim (Bool-cases (participates states e.state)) [
  | inl y ↦ rw y (displace-Distinct e es d)
  | inr n ↦ rw n d
]

module _ (cfg : Config) (head : Option String) (bots : List String)
    (states : Option (List String)) where
  -- one bot's latest review, read from the submissions in order
  unfoldable pub latest_of : String → Option Review → List RawComment → Option Review
  latest_of b sofar [] = sofar
  latest_of b sofar (raw ∷ raws) =
      latest_of b (next_of b sofar (kept states (review_entry cfg head bots raw))) raws

  pub entry_of-reduce_reviews :
      (b : String) (es : List Review) (raws : List RawComment)
      → entry_of b (reduce_reviews cfg head bots states es raws) ≡ latest_of b (entry_of b es) raws
  unfolding reduce_reviews reduce_review latest_of
  entry_of-reduce_reviews b es [] = refl
  entry_of-reduce_reviews b es (raw ∷ raws) =
      rw (← entry_of-admit b states es (review_entry cfg head bots raw))
        (entry_of-reduce_reviews b (admit states es (review_entry cfg head bots raw)) raws)

  pub reduce_reviews-Distinct :
      (es : List Review) (raws : List RawComment)
      → Distinct es
      → Distinct (reduce_reviews cfg head bots states es raws)
  unfolding reduce_reviews reduce_review
  reduce_reviews-Distinct es [] d = d
  reduce_reviews-Distinct es (raw ∷ raws) d =
      let o = review_entry cfg head bots raw in
      reduce_reviews-Distinct (admit states es o) raws (admit-Distinct states es o d)

any-insert_newest :
    (p : Review → Bool) (e : Review) (es : List Review)
    → any p (insert_newest e es) ≡ (p e || any p es)
unfolding insert_newest any
any-insert_newest p e [] = refl
any-insert_newest p e (x ∷ es) = ground (arith, any-insert_newest p e es)

any-newest_first : (p : Review → Bool) (es : List Review) → any p (newest_first es) ≡ any p es
unfolding newest_first any
any-newest_first p [] = refl
any-newest_first p (e ∷ es) =
    ground (arith, any-newest_first p es, any-insert_newest p e (newest_first es))

elem-bots :
    (b : String) (p : Review → Bool) (es : List Review)
    → elem b (map (λ e. e.bot) (filter p es)) ≡ any (λ e. e.bot == b && p e) es
unfolding elem filter any
elem-bots b p [] = refl
elem-bots b p (e ∷ es) = ground (arith, elem-bots b p es)

-- what the entry of a bot says
abbrev pub says : (Review → Bool) → Option Review → Bool
says p none = false
says p (some e) = p e

any_absent :
    (b : String) (p : Review → Bool) (es : List Review)
    → entry_of b es ≡ none
    → any (λ e. e.bot == b && p e) es ≡ false
unfolding any entry_of
any_absent b p [] h = refl
any_absent b p (e ∷ es) h = ground (arith, any_absent b p es)

any-bot :
    (b : String) (p : Review → Bool) (es : List Review)
    → Distinct es
    → any (λ e. e.bot == b && p e) es ≡ says p (entry_of b es)
unfolding any entry_of
any-bot b p [] d = refl
any-bot b p (e ∷ es) d = elim (Bool-cases (e.bot == b)) [
  | inl same ↦ rw (same, any_absent b p es (rw (← (eq_iff e.bot b).0 same) d.0)) (ground arith)
  | inr other ↦ rw other (any-bot b p es d.1)
]

-- A bot is named by a reading of the reduced reviews exactly when its latest review, read from the
-- submissions in order, passes the reading's test.
pub elem-reduced :
    (cfg : Config) (raws : List RawComment) (head : Option String) (bots : List String)
    (states : Option (List String)) (b : String) (p : Review → Bool)
    → elem b (
        sorted_set
          (map (λ e. e.bot) (filter p (reduce_latest_bot_reviews cfg raws head bots states))))
      ≡ says p (latest_of cfg head bots states b none raws)
unfolding reduce_latest_bot_reviews entry_of
elem-reduced cfg raws head bots states b p =
    let es = reduce_reviews cfg head bots states [] raws in
    elem-sorted_set b (map (λ e. e.bot) (filter p (newest_first es)))
    ∙ elem-bots b p (newest_first es)
    ∙ any-newest_first (λ e. e.bot == b && p e) es
    ∙ any-bot b p es (reduce_reviews-Distinct cfg head bots states [] raws tt)
    ∙ ap (says p) (entry_of-reduce_reviews cfg head bots states b [] raws)
