-- ===== src/PrWatch/Gate/Settle.antt =====
-- The false-settle guard and the settle baseline of `build_report`.
use agentic_dev_kit.Base.{
  ℕ, String, Bool, true, false, ◌&&◌, ◌||◌, not, Option, none, some, max, if◌then◌else◌, ltb, leb,
  eqb, ◌==◌,
}
use agentic_dev_kit.Base.Json.{
  ℤ, pos, negsuc, Json, null, bool, int, float, str, arr, obj, nil, cons, end, field,
}
use agentic_dev_kit.PrWatch.Config.{Config}
use agentic_dev_kit.PrWatch.Clock.{Clock, age_minutes}
use agentic_dev_kit.PrWatch.State.{Settled}

-- Python's truth of a value; a float is taken for a number other than 0
abbrev pub truthy : Json → Bool
truthy null = false
truthy (bool b) = b
truthy (int (pos n)) = not (eqb n 0)
truthy (int (negsuc n)) = true
truthy (float s) = true
truthy (str s) = not (s == "")
truthy (arr nil) = false
truthy (arr (cons x xs)) = true
truthy (obj end) = false
truthy (obj (field k v fs)) = true

differs : Json → String → Bool
differs (str s) h = not (s == h)
differs _ h = true

-- `bool(prior_head) and head is not None and head != prior_head`
unfoldable pub head_changed : Option Json → Option String → Bool
unfolding differs
head_changed none head = false
head_changed (some prior) none = false
head_changed (some prior) (some h) = truthy prior && differs prior h

unfoldable pub size_differs : ℕ → ℤ → Bool
size_differs total (pos n) = not (eqb total n)
size_differs total (negsuc n) = true

-- `checks["total"] != prior_settle_total`
unfoldable pub rollup_moved : ℕ → Option Settled → Bool
rollup_moved total none = true
rollup_moved total (some s) = size_differs total s.total

unfoldable pub carried_stamp : Bool → ℕ → Option Settled → Option String
carried_stamp changed total none = none
carried_stamp changed total (some s) =
    if changed || rollup_moved total (some s) then none else if s.at == "" then none else some s.at

pub record SettleView : Type 0 where
  pub head_changed : Bool
  pub max_total : ℕ
  pub settling : Bool
  pub since : String
  pub age : Option ℕ
  pub settled : Bool

abbrev old_enough : Option ℕ → ℕ → Bool
old_enough none grace = false
old_enough (some a) grace = leb grace a

abbrev kept_stamp : Option String → Option ℕ → String → String
kept_stamp (some stamp) (some a) fresh = stamp
kept_stamp _ _ fresh = fresh

-- The settle fields of the report, from the head, the number of checks and what was carried over.
unfoldable pub settle_view :
    Clock → Config → ℕ → Option String → ℕ → Option Json → ℕ → Option Settled → SettleView
settle_view clk cfg now head total prior_head prior_max prior_settle =
    let changed = head_changed prior_head head in
    let max_total = if changed then total else max prior_max total in
    let stamp = carried_stamp changed total prior_settle in
    let age = age_minutes clk stamp now in
    record {
      head_changed = changed;
      max_total = max_total;
      settling = changed || ltb total max_total;
      since = kept_stamp stamp age (clk.iso_z now);
      age = age;
      settled = old_enough age cfg.settle_grace;
    }
