-- ===== src/PrWatch/Record/Bound.antt =====
-- What a recorded review is bound to, and what a refusal leaves.
use Prim.Native.Char.{Char}
use mathlib.Core.Path.{subst}
use agentic_dev_kit.Base.{
  ℕ, String, ◌≡◌, refl, ap, sym, ◌∙◌, inl, inr, Bool, true, false, ◌&&◌, ◌||◌, not, Option, none,
  some, List, length, eqb, leb, strip, strip-strip_some, arith, eq_iff, ◌==◌,
}
use agentic_dev_kit.Base.Json.{Json, str, obj, Fields, get, put, get-put}
use agentic_dev_kit.PrWatch.Config.{Config}
use agentic_dev_kit.PrWatch.Clock.{Clock}
use agentic_dev_kit.PrWatch.Checks.{CheckDetail}
use agentic_dev_kit.PrWatch.Coverage.{Signal, bot_review_coverage}
use agentic_dev_kit.PrWatch.State.{StateFile, load_state, note_review_round}
use agentic_dev_kit.PrWatch.Repo.{
  Repo, ReviewClass, pr_review_class, lens_floor, countable, single_lens_source,
}
use agentic_dev_kit.PrWatch.Gate.{View, Backend}
use agentic_dev_kit.PrWatch.Record.{
  done, Request, Post, behind_head, plain_receipt, compose_step, post_step, Recording, is_gh,
  bot_step, delta_error, check_request, check_head, write_receipt, record_review, named_lenses,
}
use agentic_dev_kit.PrWatch.State.{has_round}
use agentic_dev_kit.PrWatch.State.Rounds.{rounds_of, noted_has}
use agentic_dev_kit.PrWatch.Record.Steps.{
  bind_inv, given_inv, guard_inv, then_inv, not_refused_inv, done_inv, plain_receipt-get,
  compose_step_inv, post_step_inv,
}

-- what the head of a recorded review passed
pub record Placed (repo : Repo) (q : Request) (view : View) (out : String × ReviewClass)
    : Type 0 where
  pub at_head : view.head ≡ some out.0
  pub expected : out.0 ≡ strip q.expected_head
  pub not_empty : not (out.0 == "") ≡ true
  pub classed : out.1 ≡ pr_review_class repo view.base_oid (some out.0)
  pub owed : not (strip q.source == single_lens_source && leb 2 (lens_floor out.1)) ≡ true

module _ (clk : Clock) (cfg : Config) (repo : Repo) (is_word : Char → Bool) (post : Post) where
  check_head_inv :
      (q : Request) (view : View) (out : String × ReviewClass)
      → check_head clk cfg repo is_word post q view ≡ done out
      → Placed repo q view out
  unfolding check_head
  check_head_inv q view out h =
      let (current, b1, h1) = given_inv _ _ _ _ h in
      let (b2, h2) = guard_inv _ _ _ _ h1 in
      let (b3, h3) = guard_inv _ _ _ _ h2 in
      let (b4, h4) = guard_inv _ _ _ _ h3 in
      subst (Placed repo q view) (done_inv _ _ h4) (record {
        at_head = b1;
        expected = (eq_iff current (strip q.expected_head)).0 b3;
        not_empty = b2;
        classed = refl;
        owed = b4;
      })

  -- what a request passes before the pull request is read
  pub check_request_inv :
      (q : Request) (backend : Backend)
      → check_request clk cfg repo is_word post q backend ≡ done tt
      → (is_gh backend ≡ true)
        × (((strip q.expected_head == "") ≡ false)
            × (((not (strip q.source == single_lens_source)
                    || (eqb (length (named_lenses q.lenses)) 1
                        && eqb (length (countable repo (named_lenses q.lenses))) 1))
                  ≡ true)
                × (delta_error clk cfg repo is_word post q ≡ none)))
  unfolding check_request
  check_request_inv q backend h =
      let (b1, h1) = guard_inv _ _ _ _ h in
      let (b2, h2) = guard_inv _ _ _ _ h1 in
      let (b3, h3) = guard_inv _ _ _ _ h2 in
      let (b4, h4) = guard_inv _ _ _ _ h3 in
      (b1, (ground (arith, b3), (b4, not_refused_inv _ _ h4)))

  -- the steps of a run that records something
  pub record_review_inv :
      (q : Request) (backend : Backend) (view : View) (details : List CheckDetail) (signal : Signal)
      (file : StateFile) (now : ℕ) (out : Recording)
      → record_review clk cfg repo is_word post q backend view details signal file now ≡ done out
      → (placed : String × ReviewClass) × (read : Signal) × (check_request clk cfg repo is_word post
            q backend
          ≡ done tt)
        × (Placed repo q view placed)
        × (bot_step clk cfg repo is_word post q (load_state file) placed.0 details signal now
            ≡ done read)
        × (write_receipt clk cfg repo is_word post q
              (load_state file)
              placed.0
              placed.1
              read
              (behind_head (bot_review_coverage cfg view.reviews (some placed.0) cfg.bots))
              now
            ≡ done out)
  unfolding record_review
  record_review_inv q backend view details signal file now out h =
      let (b1, h1) = then_inv _ _ _ h in
      let (placed, b2, h2) = bind_inv _ _ _ h1 in
      let (read, b3, h3) = bind_inv _ _ _ h2 in
      (placed, read, b1, check_head_inv q view placed b2, b3, h3)

  -- the saved state and its receipt
  pub write_receipt_inv :
      (q : Request) (state : Fields) (head : String) (class : ReviewClass) (signal : Signal)
      (behind : Fields) (now : ℕ) (out : Recording)
      → write_receipt clk cfg repo is_word post q state head class signal behind now ≡ done out
      → (receipt : Fields) × (posted : Fields × Fields) × (compose_step repo class q head
            (named_lenses q.lenses)
            state
            (plain_receipt q head (named_lenses q.lenses) signal behind (clk.iso now))
            q.compose_parent
          ≡ done receipt)
        × (post_step post state receipt q.disposition ≡ done posted)
        × (out ≡ record {
          state =
              put
                (note_review_round posted.0 head
                  (strip q.source)
                  (named_lenses q.lenses)
                  (clk.iso now)).0
                "review_receipt"
                (obj posted.1);
          receipt = posted.1;
          class = class;
        })
  unfolding write_receipt
  write_receipt_inv q state head class signal behind now out h =
      let (receipt, b1, h1) = bind_inv _ _ _ h in
      let (posted, b2, h2) = bind_inv _ _ _ h1 in (receipt, posted, b1, b2, sym (done_inv _ _ h2))

-- the head and the source of a receipt that is written
pub receipt_texts :
    (repo : Repo) (class : ReviewClass) (q : Request) (head at : String) (lenses : List String)
    (signal : Signal) (behind state receipt : Fields) (parent : Option String)
    → compose_step repo class q head lenses state
        (plain_receipt q head lenses signal behind at)
        parent
      ≡ done receipt
    → (get receipt "head" ≡ some (str head))
      × ((get receipt "source" ≡ some (str (strip q.source)))
          × ((q.allow_pending_bot ≡ true) → get receipt "override" ≡ some (str "pending-bot")))
receipt_texts repo class q head at lenses signal behind state receipt parent h =
    let plain = plain_receipt q head lenses signal behind at in
    let (p1, (p2, (p3, p4))) = plain_receipt-get q head at lenses signal behind in
    elim (compose_step_inv repo class q head lenses state plain parent receipt h) [
      | inl e ↦ rw e (p1, (p2, p4))
      | inr (previous, p, coverage, made, e) ↦
          rw e (simp (get-put, p1), (simp (get-put, p2), λ o. simp (get-put, p4 o)))
    ]

has_round_put :
    (state : Fields) (receipt : Json)
    → rounds_of (put state "review_receipt" receipt) ≡ rounds_of state
unfolding rounds_of
has_round_put state receipt = simp get-put

-- A recorded review is bound to the pull request's current head, which is the head that the caller
-- reviewed: the saved state holds the receipt, with that head and the caller's source, an override
-- that was asked for is written on it, and the head counts as a review round.
pub record_review_bound :
    (clk : Clock) (cfg : Config) (repo : Repo) (is_word : Char → Bool) (post : Post) (q : Request)
    (backend : Backend) (view : View) (details : List CheckDetail) (signal : Signal)
    (file : StateFile) (now : ℕ) (out : Recording)
    → record_review clk cfg repo is_word post q backend view details signal file now ≡ done out
    → (view.head ≡ some (strip q.expected_head))
      × ((get out.state "review_receipt" ≡ some (obj out.receipt))
          × ((get out.receipt "head" ≡ some (str (strip q.expected_head)))
              × ((get out.receipt "source" ≡ some (str (strip q.source)))
                  × (((q.allow_pending_bot ≡ true)
                        → get out.receipt "override" ≡ some (str "pending-bot"))
                      × (has_round (strip q.expected_head) (rounds_of out.state) ≡ true)))))
record_review_bound clk cfg repo is_word post q backend view details signal file now out h =
    let (placed, read, b1, pl, b2, h1) =
      record_review_inv clk cfg repo is_word post q backend view details signal file now out h in
    let (receipt, posted, c1, c2, e) =
      write_receipt_inv clk cfg repo is_word post q (load_state file) placed.0 placed.1 read _ now
        out h1 in
    let (t1, (t2, t3)) =
      receipt_texts repo placed.1 q placed.0 _ _ read _ (load_state file) receipt q.compose_parent
        c1 in
    let kept = post_step_inv post (load_state file) receipt q.disposition posted c2 in
    rw (e, ← pl.expected)
      (
        pl.at_head,
        (
          simp get-put,
          (
            kept.0 "head" refl ∙ t1,
            (
              kept.0 "source" refl ∙ t2,
              (
                λ o. kept.0 "override" refl ∙ t3 o,
                ap (has_round placed.0) (has_round_put _ _)
                    ∙ noted_has posted.0 placed.0 (strip q.source) (clk.iso now)
                        (named_lenses q.lenses)
                        (rw pl.expected (
                          strip-strip_some q.expected_head
                            (check_request_inv clk cfg repo is_word post q backend b1).1.0)),
              ),
            ),
          ),
        ),
      )
