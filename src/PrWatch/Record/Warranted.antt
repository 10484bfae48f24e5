-- ===== src/PrWatch/Record/Warranted.antt =====
-- What a recorded review had before it: the lenses, the verdicts and the bots.
use Prim.Native.Char.{Char}
use agentic_dev_kit.Base.{
  ℕ, String, ◌≡◌, refl, ap, sym, ◌∙◌, Bool, true, false, none, some, List, [], ◌∷◌, length, is_nil,
  if◌then◌else◌, leb, strip, arith, eq_iff, ◌==◌,
}
use agentic_dev_kit.Base.Json.{Fields}
use agentic_dev_kit.PrWatch.Config.{Config}
use agentic_dev_kit.PrWatch.Clock.{Clock}
use agentic_dev_kit.PrWatch.Checks.{CheckDetail}
use agentic_dev_kit.PrWatch.Coverage.{Signal, ok}
use agentic_dev_kit.PrWatch.Pending.{summarize_review_bots, PendingBlocker, ReviewBots}
use agentic_dev_kit.PrWatch.State.{StateFile, load_state, read_pending_since, write_pending_since}
use agentic_dev_kit.PrWatch.Repo.{
  Repo, pr_review_class, lens_floor, countable, single_lens_source, delta_source,
}
use agentic_dev_kit.PrWatch.Gate.{View, Backend}
use agentic_dev_kit.PrWatch.Record.{
  bots_pending, done, stop, Request, Post, refuse_pending, Recording, bot_step, delta_error,
  record_review, named_lenses,
}
use agentic_dev_kit.PrWatch.Delta.{check_delta_verdicts}
use agentic_dev_kit.PrWatch.Record.Bound.{check_request_inv, record_review_inv}

-- the bots whose verdict is awaited at a head
unfoldable pub awaited :
    Clock → Config → List CheckDetail → ℕ → Fields → String → Signal → List PendingBlocker
awaited clk cfg details now state head signal =
    (summarize_review_bots clk cfg details [] now (read_pending_since state (some head)) signal []
      none).blockers

refuse_clear :
    (state : Fields) (head : String) (bots : ReviewBots) (read : Signal)
    → refuse_pending state head bots ≡ done read
    → is_nil bots.blockers ≡ true
unfolding refuse_pending
refuse_clear state head bots read h = go bots.blockers refl h
  where
    go :
        (bs : List PendingBlocker)
        → bs ≡ bots.blockers
        → (if is_nil bs
            then done bots.signal
            else stop
                (bots_pending bots.blockers)
                (some (write_pending_since state (some head) bots.pending_since)))
          ≡ done read
        → is_nil bs ≡ true
    go [] e h = refl
    go (b ∷ bs) e h = cc h

bot_step_clear :
    (clk : Clock) (cfg : Config) (repo : Repo) (is_word : Char → Bool) (post : Post) (q : Request)
    (state : Fields) (head : String) (details : List CheckDetail) (signal read : Signal) (now : ℕ)
    → bot_step clk cfg repo is_word post q state head details signal now ≡ done read
    → q.allow_pending_bot ≡ false
    → is_nil (awaited clk cfg details now state head signal) ≡ true
unfolding bot_step refuse_pending awaited
bot_step_clear clk cfg repo is_word post q state head details signal read now h n =
    refuse_clear state head
      (summarize_review_bots clk cfg details [] now (read_pending_since state (some head)) signal []
        none)
      read
      (ap
          (λ b.
            if b
            then done ok
            else refuse_pending state head (
                summarize_review_bots clk cfg details [] now (read_pending_since state (some head))
                  signal [] none))
          (sym n)
        ∙ h)

-- A review is recorded only with what its source wants: a single-lens pass names one lens, on a pull
-- request whose class owes no second; a delta's disposition passes the check of its verdicts; and,
-- without an override, no configured bot's verdict is still awaited at that head.
pub record_review_warranted :
    (clk : Clock) (cfg : Config) (repo : Repo) (is_word : Char → Bool) (post : Post) (q : Request)
    (backend : Backend) (view : View) (details : List CheckDetail) (signal : Signal)
    (file : StateFile) (now : ℕ) (out : Recording)
    → record_review clk cfg repo is_word post q backend view details signal file now ≡ done out
    → ((strip q.source ≡ single_lens_source)
        → (length (countable repo (named_lenses q.lenses)) ≡ 1)
          × (leb 2 (lens_floor (pr_review_class repo view.base_oid view.head)) ≡ false))
      × (((strip q.source ≡ delta_source)
            → check_delta_verdicts is_word repo (named_lenses q.lenses) q.disposition ≡ none)
          × ((q.allow_pending_bot ≡ false)
              → is_nil
                  (awaited clk cfg details now (load_state file) (strip q.expected_head) signal)
                ≡ true))
unfolding delta_error
record_review_warranted clk cfg repo is_word post q backend view details signal file now out h =
    let (placed, read, b1, pl, b2, _) =
      record_review_inv clk cfg repo is_word post q backend view details signal file now out h in
    let (_, (_, (one, verdicts))) = check_request_inv clk cfg repo is_word post q backend b1 in
    (
      λ s. (
        ground (arith, one, single s),
        rw pl.at_head (rw (← pl.classed) (ground (arith, pl.owed, single s))),
      ),
      (
        λ s.
            ap
              (λ b.
                if b
                then check_delta_verdicts is_word repo (named_lenses q.lenses) q.disposition
                else none)
              (sym ((eq_iff (strip q.source) delta_source).1 s))
            ∙ verdicts,
        λ n. rw (← pl.expected) (
            bot_step_clear clk cfg repo is_word post q (load_state file) placed.0 details signal
              read now b2 n),
      ),
    )
  where
    single : strip q.source ≡ single_lens_source → (strip q.source == single_lens_source) ≡ true
    single s = (eq_iff (strip q.source) single_lens_source).1 s
