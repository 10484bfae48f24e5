-- ===== src/PrWatch/Pending/Grace.antt =====
-- A pending review bot cannot keep the merge shut for longer than the grace window.
use agentic_dev_kit.Base.{
  ℕ, ◌+◌, ◌-◌, ◌≤◌, String, ◌≡◌, refl, sym, ap, ◌∙◌, Bool, true, false, ◌&&◌, ◌||◌, not, Option,
  none, some, List, [], ◌∷◌, ◌++◌, map, arith, inl, inr, Bool-cases, filter, all, any, leb, eq_iff,
  eq_refl, ◌==◌,
}
use mathlib.Core.Path.{subst}
use agentic_dev_kit.Base.Json.{str, Fields, get, get-put, as_text}
use agentic_dev_kit.PrWatch.Config.{Config}
use agentic_dev_kit.PrWatch.Clock.{Clock, age_minutes}
use agentic_dev_kit.PrWatch.Checks.{CheckDetail, check_is_pending}
use agentic_dev_kit.PrWatch.Reviewer.{match_bot, review_unavailable_reason}
use agentic_dev_kit.PrWatch.Comments.{RawComment, Comment}
use agentic_dev_kit.PrWatch.Coverage.{Signal}
use agentic_dev_kit.PrWatch.Pending.{
  AgeSource, observed, stamped, PendingEntry, Scan, is_trusted, Reading, read_clock, note_clock,
  pend_entry, pend, announce, detail_name, scan_matched, scan_detail, scan_details, settle_entry,
  entry_blocker, comment_outages, summarize_review_bots,
}

get-note_clock :
    (obs : Fields) (bot b : String) (source : AgeSource) (since : Option String)
    → (bot == b) ≡ false
    → get (note_clock obs bot source since) b ≡ get obs b
unfolding note_clock
get-note_clock obs bot b observed (some since) n = simp (get-put, n)
get-note_clock obs bot b observed none n = refl
get-note_clock obs bot b stamped _ n = refl

all-snoc :
    (p : PendingEntry → Bool) (es : List PendingEntry) (e : PendingEntry)
    → all p (es ++ e ∷ []) ≡ (all p es && p e)
unfolding all
all-snoc p [] e = ground arith
all-snoc p (x ∷ es) e = ground (arith, all-snoc p es e)

module _ (clk : Clock) (cfg : Config) (now t1 : ℕ) (b : String) (real : (clk.iso t1 == "") ≡ false)
    (late : clk.year_2000 ≤ t1) (aged : t1 + cfg.bot_pending_grace ≤ now) where
  stored_age : age_minutes clk (some (clk.iso t1)) now ≡ some (now - t1)
  unfolding age_minutes
  stored_age = let (year, after, parsed) = clk.parse-iso t1 late in rw (real, parsed) (ground arith)

  own_stamp :
      (started : Option String)
      → read_clock clk now (some (clk.iso t1)) started
        ≡ record { age = now - t1; since = some (clk.iso t1); source = observed }
  unfolding read_clock
  own_stamp started = rw (stored_age, read_clock) refl

  own_clock :
      (obs : Fields) (started : Option String)
      → get obs b ≡ some (str (clk.iso t1))
      → read_clock clk now (as_text (get obs b)) started
        ≡ record { age = now - t1; since = some (clk.iso t1); source = observed }
  own_clock obs started h = ap (λ o. read_clock clk now (as_text o) started) h ∙ own_stamp started

  noted : Fields → String → Option String → Fields
  noted obs bot started =
      let r = read_clock clk now (as_text (get obs bot)) started in
      note_clock obs bot r.source r.since

  clock_kept :
      (obs : Fields) (bot : String) (started : Option String)
      → get obs b ≡ some (str (clk.iso t1))
      → get (noted obs bot started) b ≡ some (str (clk.iso t1))
  unfolding noted note_clock
  clock_kept obs bot started h = elim (Bool-cases (bot == b)) [
    | inl y ↦
        subst (λ x. get (noted obs x started) b ≡ some (str (clk.iso t1)))
          (sym ((eq_iff bot b).0 y))
          (ap (λ (r : Reading). get (note_clock obs b r.source r.since) b) (own_clock obs started h)
            ∙ simp (get-put, eq_refl))
    | inr n ↦ get-note_clock obs bot b _ _ n ∙ h
  ]

  -- an entry before the second loop, not the bot's or old enough
  is_aged : PendingEntry → Bool
  is_aged e = not e.blocking && (not (e.bot == b) || leb cfg.bot_pending_grace e.age)

  entry_aged :
      (obs : Fields) (d : CheckDetail) (name bot : String)
      → get obs b ≡ some (str (clk.iso t1))
      → is_aged (
          pend_entry clk cfg cfg.bots now d name bot
            (read_clock clk now (as_text (get obs bot)) d.started_at))
        ≡ true
  unfolding is_aged pend_entry
  entry_aged obs d name bot h = elim (Bool-cases (bot == b)) [
    | inl y ↦
        subst
          (λ x.
            (not (x == b)
              || leb cfg.bot_pending_grace
                  (read_clock clk now (as_text (get obs x)) d.started_at).age)
            ≡ true)
          (sym ((eq_iff bot b).0 y))
          (ap (λ (r : Reading). not (b == b) || leb cfg.bot_pending_grace r.age)
              (own_clock obs d.started_at h)
            ∙ ground (arith, aged))
    | inr n ↦ rw n refl
  ]

  -- the bot's stored clock stands, and its entries are old enough
  abbrev Aged : Scan → Type 0
  Aged s = (get s.observed b ≡ some (str (clk.iso t1))) × (all is_aged s.pending ≡ true)

  Aged-pend :
      (s : Scan) (d : CheckDetail) (name bot : String)
      → Aged s
      → Aged (pend clk cfg cfg.bots now s d name bot)
  unfolding pend noted
  Aged-pend s d name bot (c, a) = elim (Bool-cases (check_is_pending d)) [
    | inl y ↦
        let e =
          pend_entry clk cfg cfg.bots now d name bot
            (read_clock clk now (as_text (get s.observed bot)) d.started_at) in
        rw (y, pend)
          (
            clock_kept s.observed bot d.started_at c,
            all-snoc is_aged s.pending e
                ∙ ap (λ x. x && is_aged e) a
                ∙ entry_aged s.observed d name bot c,
          )
    | inr n ↦ rw (n, pend) (c, a)
  ]

  Aged-announce :
      (s : Scan) (d : CheckDetail) (name bot : String) (reason : Option String)
      → Aged s
      → Aged (announce clk cfg cfg.bots now s d name bot reason)
  unfolding announce
  Aged-announce s d name bot none h = Aged-pend s d name bot h
  Aged-announce s d name bot (some reason) h =
      elim (Bool-cases (is_trusted cfg cfg.bots d.identity bot)) [
        | inl y ↦ rw (y, announce) h
        | inr n ↦ rw (n, announce) (Aged-pend (record s { unavailable = _ }) d name bot h)
      ]

  Aged-scan_details :
      (s : Scan) (ds : List CheckDetail) → Aged s → Aged (scan_details clk cfg cfg.bots now s ds)
  unfolding scan_details scan_detail scan_matched
  Aged-scan_details s [] h = h
  Aged-scan_details s (d ∷ ds) h =
      Aged-scan_details (scan_detail clk cfg cfg.bots now s d) ds
        (go (match_bot cfg (detail_name d) cfg.bots false))
    where
      go : (o : Option String) → Aged (scan_matched clk cfg cfg.bots now s d o)
      go none = h
      go (some bot) =
          Aged-announce s d (detail_name d) bot (review_unavailable_reason cfg d.description none) h

  no_blocker :
      (gone : List String) (es : List PendingEntry)
      → all is_aged es ≡ true
      → any
          (λ x. x.bot == b)
          (map entry_blocker (filter (λ e. e.blocking) (map (settle_entry cfg gone) es)))
        ≡ false
  unfolding settle_entry entry_blocker is_aged all any filter
  no_blocker gone [] h = refl
  no_blocker gone (e ∷ es) h = ground (arith, no_blocker gone es)

-- A review bot that stays pending stops blocking the merge once the grace window has passed since
-- the time that the state file holds for it, whatever the check rows are and whoever wrote them. The
-- stored time is one that the clock printed and not empty.
pub grace_unblocks :
    (clk : Clock) (cfg : Config) (details : List CheckDetail) (comments : List Comment) (now t1 : ℕ)
    (stored : Fields) (signal : Signal) (reviews : List RawComment) (head : Option String)
    (b : String)
    → get stored b ≡ some (str (clk.iso t1))
    → (clk.iso t1 == "") ≡ false
    → clk.year_2000 ≤ t1
    → t1 + cfg.bot_pending_grace ≤ now
    → any
        (λ x. x.bot == b)
        (summarize_review_bots clk cfg details comments now stored signal reviews head).blockers
      ≡ false
unfolding summarize_review_bots all
grace_unblocks clk cfg details comments now t1 stored signal reviews head b h real late aged =
    let start : Scan = record {
      observed = stored;
      unavailable = comment_outages cfg cfg.bots comments;
      unavailable_bots = [];
      pending = [];
    } in
    let s = scan_details clk cfg cfg.bots now start details in
    no_blocker clk cfg now t1 b real late aged s.unavailable_bots s.pending
      (Aged-scan_details clk cfg now t1 b real late aged start details (h, refl)).1
