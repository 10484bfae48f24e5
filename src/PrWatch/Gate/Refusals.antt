-- ===== src/PrWatch/Gate/Refusals.antt =====
-- What keeps the gate shut whatever else holds: a standing objection, and a rollup that has not
-- been seen to stay put.
use agentic_dev_kit.Base.{
  ℕ, String, ◌≡◌, ◌≤◌, refl, sym, ◌∙◌, inl, inr, Bool, true, false, ◌&&◌, not, Option, none, some,
  List, [], ◌∷◌, arith, Bool-cases, Option-cases, is_nil, elem, length, leb, ◌==◌,
}
use agentic_dev_kit.Base.Json.{ℤ, Json, pos, negsuc}
use agentic_dev_kit.PrWatch.Config.{Config}
use agentic_dev_kit.PrWatch.Clock.{Clock, age_minutes}
use agentic_dev_kit.PrWatch.Checks.{summarize_checks}
use agentic_dev_kit.PrWatch.Comments.{Digest, collect_comments, new_actionable}
use agentic_dev_kit.PrWatch.Coverage.{
  objecting_states, verdict_states, stands_at, bot_head_objections, objecting_bot_coverage,
}
use agentic_dev_kit.PrWatch.Coverage.Latest.{says, latest_of}
use agentic_dev_kit.PrWatch.Coverage.Verdicts.{objecting_iff}
use agentic_dev_kit.PrWatch.Pending.{summarize_review_bots}
use agentic_dev_kit.PrWatch.State.{Settled}
use agentic_dev_kit.PrWatch.Repo.{Repo}
use agentic_dev_kit.PrWatch.Gate.{View, Prior, Reads}
use agentic_dev_kit.PrWatch.Gate.Settle.{
  head_changed, size_differs, rollup_moved, carried_stamp, settle_view,
}
use agentic_dev_kit.PrWatch.Gate.Report.{Gathered, gather, build_report}
use agentic_dev_kit.PrWatch.Gate.Safety.{nothing_blocks, mergeable_iff}

not_nil : (b : String) (xs : List String) → elem b xs ≡ true → is_nil xs ≡ false
unfolding elem
not_nil b [] h = cc
not_nil b (x ∷ xs) h = refl

objecting-not_nil :
    (cfg : Config) (view : View) (h : String) (b : String)
    → view.head ≡ some h
    → (h == "") ≡ false
    → says
        (stands_at h objecting_states)
        (latest_of cfg (some h) cfg.bots (some verdict_states) b none view.reviews)
      ≡ true
    → is_nil
        (objecting_bot_coverage (bot_head_objections cfg view.reviews view.head cfg.bots) view.head)
      ≡ false
objecting-not_nil cfg view h b at real objects = rw at (
    not_nil b
      (objecting_bot_coverage (bot_head_objections cfg view.reviews (some h) cfg.bots) (some h))
      (objecting_iff cfg view.reviews h cfg.bots b real ∙ objects))

and_false : (b : Bool) → (b && false) ≡ false
and_false true = refl
and_false false = refl

objection_closes :
    (view : View) (reads : Reads) (g : Gathered) (m l : Bool)
    → is_nil g.objecting_bots ≡ false
    → (m && (nothing_blocks view reads g && l)) ≡ false
objection_closes view reads g m l h = rw h (simp and_false)

unsettled_closes :
    (view : View) (reads : Reads) (g : Gathered) (m l : Bool)
    → g.settle.settled ≡ false
    → (m && (nothing_blocks view reads g && l)) ≡ false
unsettled_closes view reads g m l h = rw h (simp and_false)

-- A configured bot whose latest verdict requests changes at the head keeps the merge shut, whatever
-- the receipt, the other reviews and the rest of the state say.
pub objection_blocks :
    (clk : Clock) (cfg : Config) (dg : Digest) (repo : Repo) (view : View) (seen : List String)
    (reads : Reads) (prior : Prior) (now : ℕ) (h : String) (b : String)
    → view.head ≡ some h
    → (h == "") ≡ false
    → says
        (stands_at h objecting_states)
        (latest_of cfg (some h) cfg.bots (some verdict_states) b none view.reviews)
      ≡ true
    → (build_report clk cfg dg repo view seen reads prior now).mergeable ≡ false
unfolding gather summarize_review_bots
objection_blocks clk cfg dg repo view seen reads prior now h b at real objects =
    mergeable_iff clk cfg dg repo view seen reads prior now
    ∙ objection_closes view reads
        (gather clk cfg dg repo view
          (collect_comments dg cfg view.comments view.reviews view.inlines) reads prior now)
        _ _ (objecting-not_nil cfg view h b at real objects)

-- a settle baseline for the head and the size of the rollup, at least the grace old
pub record Baseline (clk : Clock) (cfg : Config) (head : Option String) (total : ℕ)
    (prior_head : Option Json) (settle : Option Settled) (now : ℕ) : Type 0 where
  pub stamp : Settled
  pub recorded : settle ≡ some stamp
  pub same_head : head_changed prior_head head ≡ false
  pub same_size : stamp.total ≡ pos total
  pub age : ℕ
  pub aged : age_minutes clk (some stamp.at) now ≡ some age
  pub grace_passed : cfg.settle_grace ≤ age

same_size_of : (total : ℕ) (z : ℤ) → size_differs total z ≡ false → z ≡ pos total
unfolding size_differs
same_size_of total (pos n) h = ground arith
same_size_of total (negsuc n) h = cc

carried-inv :
    (changed : Bool) (total : ℕ) (s : Settled) (stamp : String)
    → carried_stamp changed total (some s) ≡ some stamp
    → (changed ≡ false) × (size_differs total s.total ≡ false) × (stamp ≡ s.at)
unfolding carried_stamp rollup_moved
carried-inv changed total s stamp h = ground arith

module _ (clk : Clock) (cfg : Config) (now : ℕ) (head : Option String) (total : ℕ)
    (prior_head : Option Json) (prior_max : ℕ) where
  aged_Baseline :
      (s : Settled) (stamp : String) (a : ℕ)
      → carried_stamp (head_changed prior_head head) total (some s) ≡ some stamp
      → age_minutes clk (some stamp) now ≡ some a
      → leb cfg.settle_grace a ≡ true
      → Baseline clk cfg head total prior_head (some s) now
  aged_Baseline s stamp a c aged old =
      let (same, size, at) = carried-inv (head_changed prior_head head) total s stamp c in
      record {
        stamp = s;
        recorded = refl;
        same_head = same;
        same_size = same_size_of total s.total size;
        age = a;
        aged = rw (← at) aged;
        grace_passed = ground arith;
      }

  settled-Baseline :
      (settle : Option Settled)
      → (settle_view clk cfg now head total prior_head prior_max settle).settled ≡ true
      → Baseline clk cfg head total prior_head settle now
  unfolding settle_view
  settled-Baseline none h = unfold carried_stamp age_minutes in cc
  settled-Baseline (some s) h =
      elim (Option-cases (carried_stamp (head_changed prior_head head) total (some s))) [
        | inl e ↦ unfold age_minutes in cc (rw e at h)
        | inr (stamp, e) ↦ elim (Option-cases (age_minutes clk (some stamp) now)) [
          | inl f ↦ cc (rw (e, f) at h)
          | inr (a, f) ↦ aged_Baseline s stamp a e f (rw (e, f) at h)
        ]
      ]

-- No merge is authorized on a rollup that has not been seen to stay put: there is a recorded baseline
-- for this head and for this many checks whose age has reached the grace. So a first poll, a poll
-- after a push and a poll after the rollup changed its size never authorize one.
pub mergeable-Baseline :
    (clk : Clock) (cfg : Config) (dg : Digest) (repo : Repo) (view : View) (seen : List String)
    (reads : Reads) (prior : Prior) (now : ℕ)
    → (build_report clk cfg dg repo view seen reads prior now).mergeable ≡ true
    → Baseline clk cfg view.head (length view.rollup) prior.head prior.settle now
unfolding gather summarize_checks
mergeable-Baseline clk cfg dg repo view seen reads prior now m =
    let g =
      gather clk cfg dg repo view (collect_comments dg cfg view.comments view.reviews view.inlines)
        reads prior now in
    elim (Bool-cases g.settle.settled) [
      | inl y ↦
          settled-Baseline clk cfg now view.head (length view.rollup) prior.head prior.max_total
            prior.settle y
      | inr n ↦ cc (
          sym (
            unsettled_closes view reads g
              (g.checks.all_green
                && (is_nil (
                      new_actionable cfg
                        (collect_comments dg cfg view.comments view.reviews view.inlines) seen)
                    && not g.settle.settling))
              g.evidence.valid n)
          ∙ sym (mergeable_iff clk cfg dg repo view seen reads prior now)
          ∙ m)
    ]
