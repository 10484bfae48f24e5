-- ===== src/PrWatch/Receipt/Chain.antt =====
-- What a valid composed receipt has behind it: a chain of deltas that Git confirms.
use agentic_dev_kit.Base.{
  ℕ, String, ◌≡◌, refl, sym, ap, ◌∙◌, true, false, some, List, is_nil, eq_iff,
}
use mathlib.Core.Path.{subst}
use agentic_dev_kit.Base.Json.{
  Json, put, str, obj, Items, nil, cons, Fields, end, get, as_obj, as_arr, get-put,
}
use agentic_dev_kit.PrWatch.Repo.{answer, Repo, countable}
use agentic_dev_kit.PrWatch.Receipt.{
  delta_no_head, full_head_missing, pass, fail, receipt_lenses, text_list,
}
use agentic_dev_kit.PrWatch.Receipt.Validate.{
  anchors_a_delta, check_full_parent, check_delta, check_deltas, check_final, check_coverage,
  validate_composed_coverage,
}
use agentic_dev_kit.PrWatch.Receipt.Inversion.{
  bind_inv, need_inv, guard_inv, text_inv, obj_inv, same_texts-inv, false_of_not, then_inv,
  some_text_inv, git_paths_inv, moved,
}
use agentic_dev_kit.PrWatch.Receipt.Compose.{compose_coverage, coverage_of, append_item}

-- one delta that Git confirms: from `base` to `head`, with the paths that Git gives between the two
pub record Confirmed (repo : Repo) (base head : String) (delta : Fields) : Type 0 where
  pub starts : get delta "base" ≡ some (str base)
  pub ends : get delta "head" ≡ some (str head)
  pub items : Items
  pub paths : List String
  pub stores : as_arr (get delta "paths") ≡ some items
  pub lists : text_list items ≡ some paths
  pub agrees : repo.delta_paths base head ≡ answer paths
  pub lensed : is_nil (countable repo (receipt_lenses delta)) ≡ false

-- a chain of deltas, each confirmed, from one commit to another
pub data Chain (repo : Repo) : String → String → Items → Type 0 where
  at_end : {h : String} → Chain repo h h nil
  then_delta :
      {base mid last : String} {delta : Fields} {rest : Items}
      → Confirmed repo base mid delta
      → Chain repo mid last rest
      → Chain repo base last (cons (obj delta) rest)

check_delta-Confirmed :
    (repo : Repo) (previous head : String) (delta : Fields)
    → check_delta repo previous delta ≡ pass head
    → Confirmed repo previous head delta
unfolding check_delta
check_delta-Confirmed repo previous head delta h =
    let (base, b, h1) = need_inv _ _ _ _ h in
    let (same, h2) = guard_inv _ _ _ _ h1 in
    let (mid, d, h3) = bind_inv _ _ _ h2 in
    let (source, _, h4) = need_inv _ _ _ _ h3 in
    let (_, h5) = guard_inv _ _ _ _ h4 in
    let (lensed, h6) = guard_inv _ _ _ _ h5 in
    let (_, _, h7) = bind_inv _ _ _ h6 in
    let (items, i, h8) = need_inv _ _ _ _ h7 in
    let (paths, p, h9) = need_inv _ _ _ _ h8 in
    let (_, h10) = guard_inv _ _ _ _ h9 in
    let (actual, g, h11) = bind_inv _ _ _ h10 in
    let (agree, h12) = guard_inv _ _ _ _ h11 in
    let at_head : mid ≡ head = cc h12 in
    record {
      starts = text_inv (get delta "base") previous (b ∙ ap some ((eq_iff base previous).0 same));
      ends = some_text_inv (get delta "head") delta_no_head head (d ∙ ap pass at_head);
      items = items;
      paths = paths;
      stores = i;
      lists = p;
      agrees =
          moved repo.delta_paths ((eq_iff base previous).0 same) at_head
            (same_texts-inv paths actual agree)
            (git_paths_inv (repo.delta_paths base mid) actual g);
      lensed = false_of_not (is_nil (countable repo (receipt_lenses delta))) lensed;
    }

check_deltas-Chain :
    (repo : Repo) (previous : String) (deltas : Items) (last : Fields) (walked : String × Fields)
    → check_deltas repo previous last deltas ≡ pass walked
    → Chain repo previous walked.0 deltas
unfolding check_deltas
check_deltas-Chain repo previous nil last walked h =
    subst (λ x. Chain repo previous x nil) (ends_here h) at_end
  where
    ends_here : pass (previous, last) ≡ pass walked → previous ≡ walked.0
    ends_here e = ap (λ c. elim c [ pass w ↦ w.0 | fail e ↦ previous ]) e
check_deltas-Chain repo previous (cons j rest) last walked h =
    let (delta, o, h1) = need_inv _ _ _ _ h in
    let (head, d, h2) = bind_inv _ _ _ h1 in
    subst (λ x. Chain repo previous walked.0 (cons x rest)) (sym (obj_inv j delta o))
      (then_delta (check_delta-Confirmed repo previous head delta d)
        (check_deltas-Chain repo head rest delta walked h2))

-- what a valid composed receipt records: an anchoring full review of `start`, and a chain of
-- confirmed deltas from there to the head
pub record Composed (repo : Repo) (receipt : Fields) (head : String) (floor : ℕ) (stored : Json)
    : Type 0 where
  pub coverage : Fields
  pub full : Fields
  pub deltas : Items
  pub start : String
  pub source : String
  pub is_coverage : stored ≡ obj coverage
  pub has_full : as_obj (get coverage "full_parent") ≡ some full
  pub has_deltas : as_arr (get coverage "deltas") ≡ some deltas
  pub full_head : get full "head" ≡ some (str start)
  pub full_source : get full "source" ≡ some (str source)
  pub anchors : anchors_a_delta repo source (receipt_lenses full) floor ≡ true
  pub chain : Chain repo start head deltas

record Anchored (repo : Repo) (floor : ℕ) (full : Fields) (start : String) : Type 0 where
  pub source : String
  pub full_head : get full "head" ≡ some (str start)
  pub full_source : get full "source" ≡ some (str source)
  pub anchors : anchors_a_delta repo source (receipt_lenses full) floor ≡ true

check_full_parent-Anchored :
    (repo : Repo) (floor : ℕ) (full : Fields) (start : String)
    → check_full_parent repo floor full ≡ pass start
    → Anchored repo floor full start
unfolding check_full_parent
check_full_parent-Anchored repo floor full start h =
    let (head, d, h1) = bind_inv _ _ _ h in
    let (source, s, h2) = need_inv _ _ _ _ h1 in
    let (_, h3) = guard_inv _ _ _ _ h2 in
    let (_, h4) = guard_inv _ _ _ _ h3 in
    let (anchors, h5) = guard_inv _ _ _ _ h4 in
    let (_, _, h6) = bind_inv _ _ _ h5 in
    let at_start : head ≡ start = cc h6 in
    record {
      source = source;
      full_head = some_text_inv (get full "head") full_head_missing start (d ∙ ap pass at_start);
      full_source = text_inv (get full "source") source s;
      anchors = anchors;
    }

check_final-head :
    (receipt final : Fields) (current_head previous : String)
    → check_final receipt current_head previous final ≡ pass tt
    → previous ≡ current_head
unfolding check_final
check_final-head receipt final current_head previous h =
    let (_, _, h1) = need_inv _ _ _ _ h in
    let (_, _, h2) = need_inv _ _ _ _ h1 in
    let (_, h3) = guard_inv _ _ _ _ h2 in
    let (_, h4) = guard_inv _ _ _ _ h3 in
    let (_, _, h5) = bind_inv _ _ _ h4 in
    let (_, _, h6) = bind_inv _ _ _ h5 in
    let (_, h7) = guard_inv _ _ _ _ h6 in
    let (_, _, h8) = need_inv _ _ _ _ h7 in
    let (_, h9) = guard_inv _ _ _ _ h8 in
    let (ends, _) = guard_inv _ _ _ _ h9 in (eq_iff previous current_head).0 ends

-- A composed receipt that is valid for a head has a full review that may anchor a delta, and from
-- that review's head to this one an unbroken chain of deltas, for each of which Git gives the very
-- paths that it stores and at least one lens is named.
pub check_coverage-Composed :
    (repo : Repo) (receipt : Fields) (head : String) (floor : ℕ) (stored : Json)
    → check_coverage repo receipt head floor stored ≡ pass tt
    → Composed repo receipt head floor stored
unfolding check_coverage
check_coverage-Composed repo receipt head floor stored h =
    let (coverage, o, h1) = need_inv _ _ _ _ h in
    let (_, h2) = guard_inv _ _ _ _ h1 in
    let (full, f, h3) = need_inv _ _ _ _ h2 in
    let (deltas, d, h4) = need_inv _ _ _ _ h3 in
    let (_, h5) = guard_inv _ _ _ _ h4 in
    let (start, anchored, h6) = bind_inv _ _ _ h5 in
    let (walked, w, h7) = bind_inv _ _ _ h6 in
    let a = check_full_parent-Anchored repo floor full start anchored in
    record {
      coverage = coverage;
      full = full;
      deltas = deltas;
      start = start;
      source = a.source;
      is_coverage = obj_inv stored coverage o;
      has_full = f;
      has_deltas = d;
      full_head = a.full_head;
      full_source = a.full_source;
      anchors = a.anchors;
      chain =
          subst (λ x. Chain repo start x deltas)
            (check_final-head receipt walked.1 head walked.0 h7)
            (check_deltas-Chain repo start deltas end walked w);
    }

validated :
    (repo : Repo) (receipt : Fields) (stored : Json) (head : String) (floor : ℕ)
    → get receipt "coverage" ≡ some stored
    → validate_composed_coverage repo receipt head floor
      ≡ check_coverage repo receipt head floor stored
unfolding validate_composed_coverage
validated repo receipt stored head floor e = rw (e, validate_composed_coverage) refl

-- A delta pass composes only onto a chain that Git confirms: with the coverage that
-- `_compose_coverage` returns for a head, the receipt has an anchoring full review and an unbroken
-- chain of confirmed deltas up to that head.
pub compose_coverage-Composed :
    (repo : Repo) (floor : ℕ) (previous receipt : Fields) (parent_head head : String)
    (coverage : Json)
    → compose_coverage repo floor previous parent_head head receipt ≡ pass coverage
    → Composed repo (put receipt "coverage" coverage) head floor coverage
unfolding compose_coverage
compose_coverage-Composed repo floor previous receipt parent_head head coverage h =
    let (_, _, h1) = need_inv _ _ _ _ h in
    let (_, h2) = guard_inv _ _ _ _ h1 in
    let (chain, _, h3) = bind_inv _ _ _ h2 in
    let (delta, _, h4) = bind_inv _ _ _ h3 in
    let (valid, h5) = then_inv _ _ _ h4 in
    let same : coverage_of chain.0 (append_item chain.1 (obj delta)) ≡ coverage = cc h5 in
    check_coverage-Composed repo (put receipt "coverage" coverage) head floor coverage (
      sym (validated repo (put receipt "coverage" coverage) coverage head floor (simp get-put))
      ∙ ap (λ c. validate_composed_coverage repo (put receipt "coverage" c) head floor) (sym same)
      ∙ valid)
