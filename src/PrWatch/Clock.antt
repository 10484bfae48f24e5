-- ===== src/PrWatch/Clock.antt =====
-- `_age_minutes` of scripts/pr_watch.py, over Python's `datetime` as an interface: instants are
-- counted in ticks (microseconds, for `datetime`), and `minute` is the ticks of a minute. What is
-- asked of it is that a time which `isoformat` printed, in or after the year 2000, reads back.
use agentic_dev_kit.Base.{
  ℕ, ◌+◌, ◌-◌, ◌*◌, ◌≤◌, String, ◌≡◌, Option, none, some, ltb, if◌then◌else◌, ◌==◌,
}

pub record Stamp : Type 0 where
  pub year : ℕ
  pub ticks : ℕ

pub record Clock : Type 0 where
  pub minute : ℕ
  -- `datetime.fromisoformat(s.replace("Z", "+00:00"))`, in UTC; `none` for a `ValueError`
  pub parse : String → Option Stamp
  -- `t.isoformat()`, and the same with `Z` for `+00:00`
  pub iso : ℕ → String
  pub iso_z : ℕ → String
  pub year_2000 : ℕ
  pub parse-iso :
      (t : ℕ)
      → year_2000 ≤ t
      → (y : ℕ) × (2000 ≤ y) × (parse (iso t) ≡ some (record { year = y; ticks = t }))
  pub parse-iso_z :
      (t : ℕ)
      → year_2000 ≤ t
      → (y : ℕ) × (2000 ≤ y) × (parse (iso_z t) ≡ some (record { year = y; ticks = t }))

module _ (clk : Clock) where
  -- `_FUTURE_SKEW_TOLERANCE_MINUTES`
  abbrev pub skew : ℕ
  skew = 2 * clk.minute

  abbrev age_of : Option Stamp → ℕ → Option ℕ
  age_of none now = none
  age_of (some p) now =
      if ltb p.year 2000
      then none
      else if ltb (now + skew) p.ticks
      then none
      else some (now - p.ticks)

  -- The age of a time stamp in ticks, `none` where the stamp is unusable. The difference stops at
  -- 0, as `max(0.0, age)` does.
  unfoldable pub age_minutes : Option String → ℕ → Option ℕ
  age_minutes none now = none
  age_minutes (some s) now = if s == "" then none else age_of (clk.parse s) now
