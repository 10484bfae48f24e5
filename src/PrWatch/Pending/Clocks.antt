-- ===== src/PrWatch/Pending/Clocks.antt =====
-- The clock of a pending row of `summarize_review_bots`: the stored stamp, the check's own, or now.
use agentic_dev_kit.Base.{ℕ, String, Option, none, some}
use agentic_dev_kit.Base.Json.{str, Fields, put}
use agentic_dev_kit.PrWatch.Clock.{Clock, age_minutes}
use agentic_dev_kit.PrWatch.Pending.Entries.{AgeSource, observed, stamped}

-- the clock in force for a pending row: its age, its stamp, and where the stamp came from
pub record Reading : Type 0 where
  pub age : ℕ
  pub since : Option String
  pub source : AgeSource

module _ (clk : Clock) (now : ℕ) where
  unfoldable pub start_clock : Reading
  start_clock = record { age = 0; since = some (clk.iso now); source = observed }

  unfoldable pub read_check_clock : Option String → Reading
  unfolding start_clock
  read_check_clock started = elim (age_minutes clk started now) [
    | none ↦ start_clock
    | some a ↦ record { age = a; since = started; source = stamped }
  ]

  -- our own stored clock first, the check's stamp second, a new clock last
  unfoldable pub read_clock : Option String → Option String → Reading
  unfolding read_check_clock
  read_clock stored started = elim (age_minutes clk stored now) [
    | none ↦ read_check_clock started
    | some a ↦ record { age = a; since = stored; source = observed }
  ]

-- `if source == "observed": observed[bot] = since`
unfoldable pub note_clock : Fields → String → AgeSource → Option String → Fields
note_clock obs bot observed (some since) = put obs bot (str since)
note_clock obs bot _ _ = obs
