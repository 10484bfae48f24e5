-- ===== src/PrWatch/Record/Held.antt =====
-- A review whose repair is still to be pushed opens no merge at the reviewed head.
use Prim.Native.Char.{Char}
use agentic_dev_kit.Base.{
  ℕ, String, ◌≡◌, refl, ap, ◌∙◌, inl, inr, Bool, true, false, ◌&&◌, Option, some, List, arith,
  eq_refl,
}
use agentic_dev_kit.Base.Json.{bool, str, obj, Fields, get, get-put, as_obj}
use agentic_dev_kit.PrWatch.Config.{Config}
use agentic_dev_kit.PrWatch.Clock.{Clock}
use agentic_dev_kit.PrWatch.Checks.{CheckDetail}
use agentic_dev_kit.PrWatch.Coverage.{Signal}
use agentic_dev_kit.PrWatch.Comments.{Digest, collect_comments}
use agentic_dev_kit.PrWatch.State.{StateFile, holds, load_state, seen_of}
use agentic_dev_kit.PrWatch.Repo.{Repo, ReviewClass}
use agentic_dev_kit.PrWatch.Gate.{View, Backend, Reads}
use agentic_dev_kit.PrWatch.Gate.Evidence.{binds, head_equals, repair_is_pending}
use agentic_dev_kit.PrWatch.Gate.Report.{Gathered, gather}
use agentic_dev_kit.PrWatch.Poll.{poll_report, prior_of}
use agentic_dev_kit.PrWatch.Record.{
  done, Request, Post, plain_receipt, compose_step, Recording, record_review,
}
use agentic_dev_kit.PrWatch.Record.Steps.{plain_receipt-held, compose_step_inv, post_step_inv}
use agentic_dev_kit.PrWatch.Record.Bound.{
  record_review_inv, write_receipt_inv, record_review_bound, receipt_texts,
}
use agentic_dev_kit.PrWatch.Gate.Safety.{nothing_blocks, mergeable_iff}

receipt_held :
    (repo : Repo) (class : ReviewClass) (q : Request) (head at : String) (lenses : List String)
    (signal : Signal) (behind state receipt : Fields) (parent : Option String)
    → compose_step repo class q head lenses state
        (plain_receipt q head lenses signal behind at)
        parent
      ≡ done receipt
    → q.repair_pending ≡ true
    → get receipt "repair_pending" ≡ some (bool true)
receipt_held repo class q head at lenses signal behind state receipt parent h hold =
    let plain = plain_receipt q head lenses signal behind at in
    let held = plain_receipt-held q head at lenses signal behind hold in
    elim (compose_step_inv repo class q head lenses state plain parent receipt h) [
      | inl e ↦ rw e held
      | inr (previous, p, coverage, made, e) ↦ rw e (simp (get-put, held))
    ]

held_pending :
    (receipt : Fields) (head : String)
    → get receipt "head" ≡ some (str head)
    → get receipt "repair_pending" ≡ some (bool true)
    → repair_is_pending (some receipt) (some head) ≡ true
unfolding repair_is_pending binds head_equals
held_pending receipt head at held = rw (at, held) (ap (λ b. b && true) (eq_refl head))

held_closes :
    (view : View) (reads : Reads) (g : Gathered) (a b : Bool)
    → g.repair_pending ≡ true
    → (a && (nothing_blocks view reads g && b)) ≡ false
held_closes view reads g a b h = ground (arith, h)

held_shut :
    (clk : Clock) (cfg : Config) (dg : Digest) (repo : Repo) (state receipt : Fields) (view : View)
    (reads : Reads) (now : ℕ)
    → get state "review_receipt" ≡ some (obj receipt)
    → repair_is_pending (some receipt) view.head ≡ true
    → (poll_report clk cfg dg repo (holds (obj state)) view reads now).mergeable ≡ false
unfolding poll_report gather prior_of load_state
held_shut clk cfg dg repo state receipt view reads now e h =
    mergeable_iff clk cfg dg repo view (seen_of state) reads (prior_of state view.head) now
    ∙ held_closes view reads
        (gather clk cfg dg repo view
          (collect_comments dg cfg view.comments view.reviews view.inlines) reads
          (prior_of state view.head) now)
        _
        (gather clk cfg dg repo view
          (collect_comments dg cfg view.comments view.reviews view.inlines) reads
          (prior_of state view.head) now).evidence.valid
        (ap (λ o. repair_is_pending (as_obj o) view.head) e ∙ h)

-- A review that is recorded with its repair still pending keeps the merge shut: a poll that loads the
-- state it left is not mergeable, whatever else it reads, as long as it finds the reviewed head.
pub record_review_held :
    (clk : Clock) (cfg : Config) (repo : Repo) (is_word : Char → Bool) (post : Post) (q : Request)
    (backend : Backend) (view : View) (details : List CheckDetail) (signal : Signal)
    (file : StateFile) (now : ℕ) (out : Recording) (dg : Digest) (later : View) (reads : Reads)
    (then_at : ℕ)
    → record_review clk cfg repo is_word post q backend view details signal file now ≡ done out
    → q.repair_pending ≡ true
    → later.head ≡ view.head
    → (poll_report clk cfg dg repo (holds (obj out.state)) later reads then_at).mergeable ≡ false
record_review_held clk cfg repo is_word post q backend view details signal file now out dg later
      reads then_at h hold same_head =
    let (placed, read, _, pl, _, h1) =
      record_review_inv clk cfg repo is_word post q backend view details signal file now out h in
    let (receipt, posted, c1, c2, e) =
      write_receipt_inv clk cfg repo is_word post q (load_state file) placed.0 placed.1 read _ now
        out h1 in
    let kept = post_step_inv post (load_state file) receipt q.disposition posted c2 in
    let bound =
      record_review_bound clk cfg repo is_word post q backend view details signal file now out h in
    let texts =
      receipt_texts repo placed.1 q placed.0 _ _ read _ (load_state file) receipt q.compose_parent
        c1 in
    let held =
      receipt_held repo placed.1 q placed.0 _ _ read _ (load_state file) receipt q.compose_parent c1
        hold in
    held_shut clk cfg dg repo out.state posted.1 later reads then_at
      (bound.1.0 ∙ ap (λ o. some (obj o.receipt)) e)
      (rw (same_head, pl.at_head)
        (held_pending posted.1 placed.0 (kept.0 "head" refl ∙ texts.0)
          (kept.0 "repair_pending" refl ∙ held)))
