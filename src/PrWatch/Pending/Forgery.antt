-- ===== src/PrWatch/Pending/Forgery.antt =====
-- An outage text counts only under the trusted creator of the check.
use agentic_dev_kit.Base.{
  ℕ, String, ◌≡◌, refl, sym, ap, ◌∙◌, Bool, false, Option, none, some, List, [], ◌∷◌, map,
  if◌then◌else◌, inl, inr, Bool-cases, filter,
}
use agentic_dev_kit.Base.Json.{Fields}
use agentic_dev_kit.PrWatch.Config.{Config}
use agentic_dev_kit.PrWatch.Clock.{Clock}
use agentic_dev_kit.PrWatch.Checks.{CheckDetail, check_is_pending}
use agentic_dev_kit.PrWatch.Reviewer.{match_bot, review_unavailable_reason}
use agentic_dev_kit.PrWatch.Comments.{RawComment, Comment}
use agentic_dev_kit.PrWatch.Coverage.{Signal}
use agentic_dev_kit.PrWatch.Pending.{
  Outage, Scan, is_trusted, pend_entry, pend, announce, detail_name, scan_matched, scan_detail,
  scan_details, settle_entry, entry_blocker, keep_bots, comment_outages, summarize_review_bots,
}

-- the variables of the loop without the announced outages
forget : Scan → Scan
forget s = record s { unavailable = [] }

module _ (clk : Clock) (cfg : Config) (now : ℕ) where
  forget-pend :
      (s : Scan) (d : CheckDetail) (name bot : String)
      → forget (pend clk cfg cfg.bots now s d name bot)
        ≡ forget (pend clk cfg cfg.bots now (forget s) d name bot)
  unfolding pend forget
  forget-pend s d name bot = elim (Bool-cases (check_is_pending d)) [
    | inl y ↦ rw (y, pend) refl
    | inr n ↦ rw (n, pend) refl
  ]

  pend_outages :
      (s : Scan) (u v : List Outage) (d : CheckDetail) (name bot : String)
      → forget (pend clk cfg cfg.bots now (record s { unavailable = u }) d name bot)
        ≡ forget (pend clk cfg cfg.bots now (record s { unavailable = v }) d name bot)
  unfolding pend forget
  pend_outages s u v d name bot = elim (Bool-cases (check_is_pending d)) [
    | inl y ↦ rw (y, pend) refl
    | inr n ↦ rw (n, pend) refl
  ]

  forget-announce :
      (s : Scan) (d : CheckDetail) (name bot : String) (reason : Option String)
      → forget (announce clk cfg cfg.bots now s d name bot reason)
        ≡ forget (announce clk cfg cfg.bots now (forget s) d name bot reason)
  unfolding announce forget
  forget-announce s d name bot none = forget-pend s d name bot
  forget-announce s d name bot (some reason) =
      elim (Bool-cases (is_trusted cfg cfg.bots d.identity bot)) [
        | inl y ↦ rw (y, announce) refl
        | inr n ↦ rw (n, announce) (pend_outages s _ _ d name bot)
      ]

  forget-scan_detail :
      (s : Scan) (d : CheckDetail)
      → forget (scan_detail clk cfg cfg.bots now s d)
        ≡ forget (scan_detail clk cfg cfg.bots now (forget s) d)
  unfolding scan_detail scan_matched forget
  forget-scan_detail s d = go (match_bot cfg (detail_name d) cfg.bots false)
    where
      go :
          (o : Option String)
          → forget (scan_matched clk cfg cfg.bots now s d o)
            ≡ forget (scan_matched clk cfg cfg.bots now (forget s) d o)
      go none = refl
      go (some bot) =
          forget-announce s d (detail_name d) bot (review_unavailable_reason cfg d.description none)

  -- the loop does not read the announced outages
  forget-scan_details :
      (s : Scan) (ds : List CheckDetail)
      → forget (scan_details clk cfg cfg.bots now s ds)
        ≡ forget (scan_details clk cfg cfg.bots now (forget s) ds)
  unfolding scan_details
  forget-scan_details s [] = unfold forget in refl
  forget-scan_details s (d ∷ ds) =
      let s1 = scan_detail clk cfg cfg.bots now s d in
      let s2 = scan_detail clk cfg cfg.bots now (forget s) d in
      forget-scan_details s1 ds
      ∙ ap (λ t. forget (scan_details clk cfg cfg.bots now t ds)) (forget-scan_detail s d)
      ∙ sym (forget-scan_details s2 ds)

-- whether the row's creator may speak for the bot that the row names
unfoldable pub has_trusted_creator : Config → CheckDetail → Bool
has_trusted_creator cfg d = elim (match_bot cfg (detail_name d) cfg.bots false) [
  | none ↦ false
  | some bot ↦ is_trusted cfg cfg.bots d.identity bot
]

-- the row with other words in its description, unless its creator is trusted
unfoldable pub reword : Config → String → CheckDetail → CheckDetail
reword cfg words d = if has_trusted_creator cfg d then d else record d { description = words }

module _ (clk : Clock) (cfg : Config) (now : ℕ) (words : String)
    (quiet : review_unavailable_reason cfg words none ≡ none) where
  pend_words :
      (s : Scan) (d : CheckDetail) (name bot : String)
      → pend clk cfg cfg.bots now s d name bot
        ≡ pend clk cfg cfg.bots now s (record d { description = words }) name bot
  unfolding pend check_is_pending pend_entry
  pend_words s d name bot = refl

  untrusted-announce :
      (s : Scan) (d : CheckDetail) (name bot : String) (reason : Option String)
      → is_trusted cfg cfg.bots d.identity bot ≡ false
      → forget (announce clk cfg cfg.bots now s d name bot reason)
        ≡ forget (pend clk cfg cfg.bots now s (record d { description = words }) name bot)
  unfolding announce
  untrusted-announce s d name bot none n = ap forget (pend_words s d name bot)
  untrusted-announce s d name bot (some reason) n =
      rw (n, announce)
        (pend_outages clk cfg now s _ s.unavailable d name bot
          ∙ ap forget (pend_words s d name bot))

  untrusted-scan_detail :
      (s : Scan) (d : CheckDetail)
      → has_trusted_creator cfg d ≡ false
      → forget (scan_detail clk cfg cfg.bots now s d)
        ≡ forget (scan_detail clk cfg cfg.bots now s (record d { description = words }))
  unfolding scan_detail has_trusted_creator scan_matched announce
  untrusted-scan_detail s d n = go (match_bot cfg (detail_name d) cfg.bots false) n
    where
      go :
          (o : Option String)
          → elim o [ none ↦ false | some bot ↦ is_trusted cfg cfg.bots d.identity bot ] ≡ false
          → forget (scan_matched clk cfg cfg.bots now s d o)
            ≡ forget (scan_matched clk cfg cfg.bots now s (record d { description = words }) o)
      go none e = refl
      go (some bot) e =
          untrusted-announce s d (detail_name d) bot
            (review_unavailable_reason cfg d.description none) e
          ∙ ap
              (λ r. forget (
                announce clk cfg cfg.bots now s (record d { description = words }) (detail_name d)
                  bot r))
              (sym quiet)

  reword-scan_detail :
      (s : Scan) (d : CheckDetail)
      → forget (scan_detail clk cfg cfg.bots now s d)
        ≡ forget (scan_detail clk cfg cfg.bots now s (reword cfg words d))
  unfolding reword
  reword-scan_detail s d = elim (Bool-cases (has_trusted_creator cfg d)) [
    | inl y ↦ rw (y, reword) refl
    | inr n ↦ rw (n, reword) (untrusted-scan_detail s d n)
  ]

  reword-scan_details :
      (s : Scan) (ds : List CheckDetail)
      → forget (scan_details clk cfg cfg.bots now s ds)
        ≡ forget (scan_details clk cfg cfg.bots now s (map (reword cfg words) ds))
  unfolding scan_details
  reword-scan_details s [] = refl
  reword-scan_details s (d ∷ ds) =
      let rest = map (reword cfg words) ds in
      let s1 = scan_detail clk cfg cfg.bots now s d in
      let s2 = scan_detail clk cfg cfg.bots now s (reword cfg words d) in
      reword-scan_details s1 ds
      ∙ forget-scan_details clk cfg now s1 rest
      ∙ ap (λ t. forget (scan_details clk cfg cfg.bots now t rest)) (reword-scan_detail s d)
      ∙ sym (forget-scan_details clk cfg now s2 rest)

-- No outage text counts without its check's trusted creator: when every row of another creator is
-- given other words, which hold no outage marker, the pending entries, the merge blockers and the
-- stored clocks of the summary stay the same.
pub summarize_review_bots-reword :
    (clk : Clock) (cfg : Config) (now : ℕ) (words : String) (details : List CheckDetail)
    (comments : List Comment) (stored : Fields) (signal : Signal) (reviews : List RawComment)
    (head : Option String)
    → review_unavailable_reason cfg words none ≡ none
    → let said = summarize_review_bots clk cfg details comments now stored signal reviews head in
      let quiet =
        summarize_review_bots clk cfg
          (map (reword cfg words) details)
          comments
          now
          stored
          signal
          reviews
          head in
      (said.pending ≡ quiet.pending)
      × (said.blockers ≡ quiet.blockers)
      × (said.pending_since ≡ quiet.pending_since)
unfolding summarize_review_bots forget
summarize_review_bots-reword clk cfg now words details comments stored signal reviews head q =
    let start : Scan = record {
      observed = stored;
      unavailable = comment_outages cfg cfg.bots comments;
      unavailable_bots = [];
      pending = [];
    } in
    let e = reword-scan_details clk cfg now words q start details in
    (
      ap (λ s. map (settle_entry cfg s.unavailable_bots) s.pending) e,
      ap
          (λ s.
            map entry_blocker
              (filter (λ p. p.blocking) (map (settle_entry cfg s.unavailable_bots) s.pending)))
          e,
      ap
          (λ s.
            keep_bots (map (λ p. p.bot) (map (settle_entry cfg s.unavailable_bots) s.pending))
              s.observed)
          e,
    )
