-- ===== src/PrWatch/Receipt/Compose.antt =====
-- `_compose_coverage` of scripts/pr_watch.py: extend a standing receipt by one delta pass.
use agentic_dev_kit.Base.{ℕ, String, not, Option, none, some, strip, ◌==◌}
use agentic_dev_kit.Base.Json.{
  pos, Json, int, str, arr, obj, Items, nil, cons, Fields, end, field, get, put, as_text, as_obj,
  as_arr, text_items,
}
use agentic_dev_kit.PrWatch.Repo.{Repo, delta_source}
use agentic_dev_kit.PrWatch.Receipt.{
  full_missing, deltas_missing, not_object, full_not_anchor, parent_differs, no_parent_source,
  legacy_delta, Check, pass, ◌>>=◌, ◌>>◌, require, need, Caveats, receipt_lenses, receipt_caveats,
}
use agentic_dev_kit.PrWatch.Receipt.Validate.{
  anchors_a_delta, git_paths, validate_composed_coverage,
}

put_text : Fields → String → Option String → Fields
put_text fs k none = fs
put_text fs k (some s) = put fs k (str s)

put_obj : Fields → String → Option Fields → Fields
put_obj fs k none = fs
put_obj fs k (some o) = put fs k (obj o)

-- `fs.update(caveats)`
unfoldable pub put_caveats : Fields → Caveats → Fields
unfolding put_text put_obj
put_caveats fs c =
    put_obj (put_text (put_text fs "override" c.override) "bot_signal" c.bot_signal)
      "bots_behind_head" c.bots_behind_head

unfoldable pub append_item : Items → Json → Items
append_item nil x = cons x nil
append_item (cons y ys) x = cons y (append_item ys x)

-- the full parent that a receipt without coverage makes
unfoldable pub fresh_parent : Repo → ℕ → Fields → String → Check Fields
unfolding put_text
fresh_parent repo floor previous parent_head = do
  source ← need (as_text (get previous "source")) no_parent_source
  require (not (strip source == "")) no_parent_source
  require (not (strip source == delta_source)) legacy_delta
  require (anchors_a_delta repo source (receipt_lenses previous) floor) full_not_anchor
  caveats ← receipt_caveats previous
  pass (
      put_text
        (put_caveats
          (field "head" (str parent_head) (
            field "source" (str source)
              (field "lenses" (arr (text_items (receipt_lenses previous))) end)))
          caveats)
        "recorded_at" (as_text (get previous "recorded_at")))

-- the full parent and the deltas that the standing receipt hands on
unfoldable pub standing_chain : Repo → ℕ → Fields → String → Option Json → Check (Fields × Items)
standing_chain repo floor previous parent_head none = do
  full ← fresh_parent repo floor previous parent_head
  pass (full, nil)
standing_chain repo floor previous parent_head (some stored) = do
  validate_composed_coverage repo previous parent_head floor
  existing ← need (as_obj (some stored)) not_object
  full ← need (as_obj (get existing "full_parent")) full_missing
  deltas ← need (as_arr (get existing "deltas")) deltas_missing
  pass (full, deltas)

lens_items : Option Json → Items
lens_items stored = elim (as_arr stored) [ none ↦ nil | some xs ↦ xs ]

-- the delta entry of the current pass
unfoldable pub current_delta : Repo → String → String → Fields → Check Fields
unfolding lens_items put_text
current_delta repo parent_head head receipt = do
  paths ← git_paths (repo.delta_paths parent_head head)
  caveats ← receipt_caveats receipt
  pass (
      put_caveats
        (field "base" (str parent_head) (
          field "head" (str head) (
            field "source" (str delta_source) (
              field "lenses" (arr (lens_items (get receipt "lenses"))) (
                field "paths" (arr (text_items paths))
                  (put_text end "recorded_at" (as_text (get receipt "recorded_at"))))))))
        caveats)

unfoldable pub coverage_of : Fields → Items → Json
coverage_of full deltas = obj (
    field "version" (int (pos 1))
      (field "full_parent" (obj full) (field "deltas" (arr deltas) end)))

-- `_compose_coverage(previous, parent_head, receipt, lens_floor=floor)`; `head` is the receipt's
unfoldable pub compose_coverage : Repo → ℕ → Fields → String → String → Fields → Check Json
unfolding append_item
compose_coverage repo floor previous parent_head head receipt = do
  standing ← need (as_text (get previous "head")) parent_differs
  require (standing == parent_head) parent_differs
  chain ← standing_chain repo floor previous parent_head (get previous "coverage")
  delta ← current_delta repo parent_head head receipt
  let coverage = coverage_of chain.0 (append_item chain.1 (obj delta))
  validate_composed_coverage repo (put receipt "coverage" coverage) head floor
  pass coverage
