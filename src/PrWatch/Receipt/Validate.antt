-- ===== src/PrWatch/Receipt/Validate.antt =====
-- `_anchors_a_delta` and `_validate_composed_coverage` of scripts/pr_watch.py: a composed receipt
-- against Git's ancestry and paths.
use agentic_dev_kit.Base.{
  ℕ, String, Bool, true, false, ◌&&◌, ◌||◌, not, Option, none, some, List, length, is_nil, leb, eqb,
  strip, sorted_set, ◌==◌,
}
use agentic_dev_kit.Base.Json.{
  pos, Json, bool, int, float, Items, nil, cons, Fields, end, get, as_text, as_obj, as_arr,
}
use agentic_dev_kit.PrWatch.Repo.{
  Answer, answer, refusal, Repo, countable, single_lens_source, delta_source,
}
use agentic_dev_kit.PrWatch.Receipt.{
  CoverageError, not_object, bad_version, full_missing, deltas_missing, full_head_missing,
  full_source_missing, full_is_delta, full_not_anchor, delta_malformed, delta_breaks_chain,
  delta_no_head, delta_bad_source, delta_no_lens, delta_bad_paths, delta_paths_differ, git_refused,
  source_differs, lenses_differ, caveats_differ, wrong_end, Check, pass, fail, ◌>>=◌, ◌>>◌, require,
  need, is_blank, receipt_lenses, receipt_caveats, same_texts, same_caveats, text_list,
}

-- `_anchors_a_delta(source, lenses, lens_floor)`
unfoldable pub anchors_a_delta : Repo → String → List String → ℕ → Bool
anchors_a_delta repo source lenses floor =
    let n = length (countable repo lenses) in
    leb 2 n || (leb floor 1 && (eqb n 1 && strip source == single_lens_source))

-- a version that Python holds equal to 1
unfoldable pub is_version_1 : Option Json → Bool
is_version_1 (some (int (pos n))) = eqb n 1
is_version_1 (some (bool b)) = b
is_version_1 (some (float s)) = s == "1.0"
is_version_1 _ = false

unfoldable pub some_text : Option Json → CoverageError → Check String
some_text v e = do s ← need (as_text v) e; require (not (s == "")) e; pass s

-- the full parent's checks; its head is returned
unfoldable pub check_full_parent : Repo → ℕ → Fields → Check String
unfolding some_text
check_full_parent repo floor full = do
  head ← some_text (get full "head") full_head_missing
  source ← need (as_text (get full "source")) full_source_missing
  require (not (is_blank source)) full_source_missing
  require (not (strip source == delta_source)) full_is_delta
  require (anchors_a_delta repo source (receipt_lenses full) floor) full_not_anchor
  caveats ← receipt_caveats full
  pass head

unfoldable pub git_paths : Answer (List String) → Check (List String)
git_paths (answer paths) = pass paths
git_paths (refusal why) = fail (git_refused why)

-- one round of the loop over the deltas: the delta's head
unfoldable pub check_delta : Repo → String → Fields → Check String
unfolding some_text git_paths
check_delta repo previous delta = do
  base ← need (as_text (get delta "base")) delta_breaks_chain
  require (base == previous) delta_breaks_chain
  head ← some_text (get delta "head") delta_no_head
  source ← need (as_text (get delta "source")) delta_bad_source
  require (source == delta_source) delta_bad_source
  require (not (is_nil (countable repo (receipt_lenses delta)))) delta_no_lens
  caveats ← receipt_caveats delta
  items ← need (as_arr (get delta "paths")) delta_bad_paths
  paths ← need (text_list items) delta_bad_paths
  require (same_texts paths (sorted_set paths)) delta_bad_paths
  actual ← git_paths (repo.delta_paths base head)
  require (same_texts paths actual) delta_paths_differ
  pass head

-- the loop: the head that the chain ends at, and the last delta
unfoldable pub check_deltas : Repo → String → Fields → Items → Check (String × Fields)
check_deltas repo previous last nil = pass (previous, last)
check_deltas repo previous last (cons j rest) = do
  delta ← need (as_obj (some j)) delta_malformed
  head ← check_delta repo previous delta
  check_deltas repo head delta rest

abbrev pub is_empty_items : Items → Bool
is_empty_items nil = true
is_empty_items (cons x xs) = false

-- the checks below the loop
unfoldable pub check_final : Fields → String → String → Fields → Check (Unit {0})
unfolding same_texts same_caveats
check_final receipt current_head previous final = do
  source ← need (as_text (get receipt "source")) source_differs
  final_source ← need (as_text (get final "source")) source_differs
  require (source == final_source) source_differs
  require (same_texts (receipt_lenses receipt) (receipt_lenses final)) lenses_differ
  mine ← receipt_caveats receipt
  theirs ← receipt_caveats final
  require (same_caveats mine theirs) caveats_differ
  head ← need (as_text (get receipt "head")) wrong_end
  require (previous == head) wrong_end
  require (previous == current_head) wrong_end
  pass tt

unfoldable pub check_coverage : Repo → Fields → String → ℕ → Json → Check (Unit {0})
check_coverage repo receipt current_head floor stored = do
  coverage ← need (as_obj (some stored)) not_object
  require (is_version_1 (get coverage "version")) bad_version
  full ← need (as_obj (get coverage "full_parent")) full_missing
  deltas ← need (as_arr (get coverage "deltas")) deltas_missing
  require (not (is_empty_items deltas)) deltas_missing
  full_head ← check_full_parent repo floor full
  walked ← check_deltas repo full_head end deltas
  check_final receipt current_head walked.0 walked.1

-- `_validate_composed_coverage(receipt, current_head, lens_floor=floor)`
unfoldable pub validate_composed_coverage : Repo → Fields → String → ℕ → Check (Unit {0})
validate_composed_coverage repo receipt current_head floor = elim (get receipt "coverage") [
  | none ↦ pass tt
  | some stored ↦ check_coverage repo receipt current_head floor stored
]
