-- ===== src/PrWatch/Checks/Counts.antt =====
-- What the check rollup counts, and when it is green.
use agentic_dev_kit.Base.{
  ℕ, suc, ◌+◌, ◌≡◌, refl, Bool, false, ◌&&◌, ◌||◌, not, List, [], ◌∷◌, ◌++◌, arith, ltb, eqb,
  if◌then◌else◌, length, is_nil, elem, any, all, length-append,
}
use agentic_dev_kit.PrWatch.Config.{Config}
use agentic_dev_kit.PrWatch.Checks.{
  CheckRow, FailingCheck, Tally, check_name, terminal_ok, check_status, is_informational, no_checks,
  count_check, count_checks, summarize_checks,
}

abbrev counted : Tally → ℕ
counted t = t.success + t.pending + t.informational + length t.failing

counted-count_check :
    (cfg : Config) (t : Tally) (c : CheckRow) → counted (count_check cfg t c) ≡ suc (counted t)
unfolding count_check
counted-count_check cfg t c =
    ground (
      arith,
      length-append t.failing (record { name = check_name c; status = check_status c } ∷ []),
    )

counted-count_checks :
    (cfg : Config) (t : Tally) (rows : List CheckRow)
    → counted (count_checks cfg t rows) ≡ counted t + length rows
unfolding count_checks
counted-count_checks cfg t [] = omega arith
counted-count_checks cfg t (c ∷ rows) =
    omega (arith, counted-count_check cfg t c, counted-count_checks cfg (count_check cfg t c) rows)

-- Every row of the rollup is counted exactly once: as a success, as pending, as failing or as
-- informational.
pub summarize_checks-total :
    (cfg : Config) (rows : List CheckRow)
    → let r = summarize_checks cfg rows in
      r.total ≡ r.success + r.pending + length r.failing + r.informational
unfolding summarize_checks
summarize_checks-total cfg rows = omega (arith, counted-count_checks cfg no_checks rows)

-- a row that may gate the merge, and one whose state lets it
abbrev pub is_blocking : Config → CheckRow → Bool
is_blocking cfg c = not (is_informational cfg c)

abbrev pub passes : Config → CheckRow → Bool
passes cfg c = is_informational cfg c || elem (check_status c) terminal_ok

abbrev clean : Tally → Bool
clean t = is_nil t.failing && eqb t.pending 0

is_nil-snoc : (xs : List FailingCheck) (x : FailingCheck) → is_nil (xs ++ x ∷ []) ≡ false
is_nil-snoc [] x = refl
is_nil-snoc (y ∷ xs) x = refl

clean-count_check :
    (cfg : Config) (t : Tally) (c : CheckRow)
    → clean (count_check cfg t c) ≡ (clean t && passes cfg c)
unfolding count_check
clean-count_check cfg t c =
    ground (arith, is_nil-snoc t.failing (record { name = check_name c; status = check_status c }))

clean-count_checks :
    (cfg : Config) (t : Tally) (rows : List CheckRow)
    → clean (count_checks cfg t rows) ≡ (clean t && all (passes cfg) rows)
unfolding count_checks all
clean-count_checks cfg t [] = ground arith
clean-count_checks cfg t (c ∷ rows) =
    ground (arith, clean-count_check cfg t c, clean-count_checks cfg (count_check cfg t c) rows)

blocking : Config → List CheckRow → ℕ
blocking cfg [] = 0
blocking cfg (c ∷ rows) =
    let rest = blocking cfg rows in if is_informational cfg c then rest else suc rest

informational-count_checks :
    (cfg : Config) (t : Tally) (rows : List CheckRow)
    → (count_checks cfg t rows).informational + blocking cfg rows ≡ t.informational + length rows
unfolding count_checks count_check blocking
informational-count_checks cfg t [] = omega arith
informational-count_checks cfg t (c ∷ rows) =
    ground (arith, informational-count_checks cfg (count_check cfg t c) rows)

blocking_iff :
    (cfg : Config) (rows : List CheckRow) → ltb 0 (blocking cfg rows) ≡ any (is_blocking cfg) rows
unfolding blocking any
blocking_iff cfg [] = refl
blocking_iff cfg (c ∷ rows) = ground (arith, blocking_iff cfg rows)

-- The rollup is green exactly when every row is informational or in a passing terminal state, and
-- some row is not informational or the repository requires no CI.
pub all_green-summarize_checks :
    (cfg : Config) (rows : List CheckRow)
    → (summarize_checks cfg rows).all_green
      ≡ (all (passes cfg) rows && (any (is_blocking cfg) rows || not cfg.require_ci))
unfolding summarize_checks
all_green-summarize_checks cfg rows = ground (
  arith,
  clean-count_checks cfg no_checks rows,
  informational-count_checks cfg no_checks rows,
  blocking_iff cfg rows,
)
