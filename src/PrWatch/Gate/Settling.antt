-- ===== src/PrWatch/Gate/Settling.antt =====
-- When the false-settle window starts again.
use agentic_dev_kit.Base.{
  ℕ, ◌≡◌, refl, Bool, true, false, ◌||◌, Option, none, some, String, arith, ltb, ◌≤◌,
}
use agentic_dev_kit.Base.Json.{Json}
use agentic_dev_kit.PrWatch.Config.{Config}
use agentic_dev_kit.PrWatch.Clock.{Clock, age_minutes}
use agentic_dev_kit.PrWatch.State.{Settled}
use agentic_dev_kit.PrWatch.Gate.Settle.{head_changed, rollup_moved, carried_stamp, settle_view}

no_stamp :
    (changed : Bool) (total : ℕ) (prior : Option Settled)
    → (changed || rollup_moved total prior) ≡ true
    → carried_stamp changed total prior ≡ none
unfolding carried_stamp
no_stamp changed total none h = refl
no_stamp changed total (some s) h = rw h refl

-- A poll that sees a new head, or a number of checks other than the stored stamp's, starts the
-- settle window again: the stamp it reports is its own time, it has no age, and it has not settled.
pub settle_view-restarts :
    (clk : Clock) (cfg : Config) (now : ℕ) (head : Option String) (total : ℕ)
    (prior_head : Option Json) (prior_max : ℕ) (prior : Option Settled)
    → (head_changed prior_head head || rollup_moved total prior) ≡ true
    → let v = settle_view clk cfg now head total prior_head prior_max prior in
      (v.since ≡ clk.iso_z now) × (v.age ≡ none) × (v.settled ≡ false)
unfolding settle_view age_minutes
settle_view-restarts clk cfg now head total prior_head prior_max prior h =
    rw (no_stamp (head_changed prior_head head) total prior h) (refl, refl, refl)

-- Within one head the high-water mark of the number of checks never drops, and a poll that sees
-- fewer checks than the mark is settling; the mark starts again only with a new head.
pub settle_view-high_water :
    (clk : Clock) (cfg : Config) (now : ℕ) (head : Option String) (total : ℕ)
    (prior_head : Option Json) (prior_max : ℕ) (prior : Option Settled)
    → head_changed prior_head head ≡ false
    → let v = settle_view clk cfg now head total prior_head prior_max prior in
      (prior_max ≤ v.max_total) × (total ≤ v.max_total) × (v.settling ≡ ltb total prior_max)
unfolding settle_view
settle_view-high_water clk cfg now head total prior_head prior_max prior h =
    rw h (ground arith, ground arith, ground arith)
