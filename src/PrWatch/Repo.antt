-- ===== src/PrWatch/Repo.antt =====
-- What scripts/pr_watch.py asks of Git, and the review class that it computes from the answers:
-- `pr_review_class`, `_lens_floor`, `_countable_lenses` and `_one_lens_is_owed`. Git's answers and
-- the matchers of `fnmatch` and `re` are parameters.
use agentic_dev_kit.Base.{
  ℕ, String, Bool, false, ◌&&◌, ◌||◌, not, Option, none, some, List, [], map, is_nil, if◌then◌else◌,
  any, filter, lower, strip, sorted_set, ◌==◌,
}

-- an answer, or the message of the `ValueError`
pub data Answer {ℓ} (A : Type ℓ) : Type ℓ where
  answer : A → Answer A
  refusal : String → Answer A

pub record Repo : Type 0 where
  -- `_delta_paths(base, head)`
  pub delta_paths : String → String → Answer (List String)
  -- `_merge_base_paths(base, head, …)`
  pub merge_base_paths : String → String → Answer (List String)
  -- `_declared_safety_critical_paths(rev)`; `none` for no usable list
  pub declared_paths : String → Answer (Option (List String))
  -- `_resolve_reviewed_head(reviewed, current)`
  pub resolve_head : String → String → Answer String
  -- `_config_rel_path()`
  pub config_path : Answer String
  -- `fnmatch.fnmatchcase(path, pattern)`
  pub fnmatchcase : String → String → Bool
  -- `_COMMIT_SHA_RE.fullmatch(s)` and `_LENS_NAME_RE.match(s)`
  pub is_commit_sha : String → Bool
  pub is_lens_name : String → Bool

pub data ChangeClass : Type 0 where
  safety_critical standard : ChangeClass

pub record ReviewClass : Type 0 where
  pub class : ChangeClass
  pub matched_paths : List String
  pub changes_config : Bool
  pub unclassified : Option String

unfoldable pub unclassed : String → ReviewClass
unclassed why = record {
  class = safety_critical;
  matched_paths = [];
  changes_config = false;
  unclassified = some why;
}

module _ (repo : Repo) where
  -- `_path_matches(path, pattern)`
  unfoldable pub path_matches : String → String → Bool
  path_matches path pattern =
      repo.fnmatchcase path pattern || repo.fnmatchcase (lower path) (lower pattern)

  -- the paths that some declared pattern names
  unfoldable pub matched : List String → List String → List String
  matched declared paths = filter (λ path. any (path_matches path) declared) paths

  class_of_paths : List String → List String → String → ReviewClass
  class_of_paths declared paths config =
      let hits = matched declared paths in
      let touches = any (λ path. lower path == lower config) paths in
      record {
        class = if is_nil hits && not touches then standard else safety_critical;
        matched_paths = hits;
        changes_config = touches;
        unclassified = none;
      }

  class_with_config : List String → List String → Answer String → ReviewClass
  class_with_config declared paths (refusal why) = unclassed why
  class_with_config declared paths (answer config) = class_of_paths declared paths config

  class_with_paths : List String → Answer (List String) → ReviewClass
  class_with_paths declared (refusal why) = unclassed why
  class_with_paths declared (answer paths) = class_with_config declared paths repo.config_path

  class_declared : String → String → Answer (Option (List String)) → ReviewClass
  class_declared base head (refusal why) = unclassed why
  class_declared base head (answer none) = unclassed "not declared"
  class_declared base head (answer (some declared)) =
      class_with_paths declared (repo.merge_base_paths base head)

  -- `pr_review_class(base, head)`; an absent commit is no commit sha
  unfoldable pub pr_review_class : Option String → Option String → ReviewClass
  unfolding unclassed class_declared class_with_paths class_with_config class_of_paths
  pr_review_class (some base) (some head) =
      if repo.is_commit_sha base && repo.is_commit_sha head
      then class_declared base head (repo.declared_paths base)
      else unclassed "commit unknown"
  pr_review_class _ _ = unclassed "commit unknown"

  -- `len(_countable_lenses(names))`: the distinct names, case folded
  unfoldable pub countable : List String → List String
  countable names = sorted_set (map lower (filter repo.is_lens_name names))

-- `_lens_floor(review_class)`
unfoldable pub lens_floor : ReviewClass → ℕ
lens_floor c = elim c.class [
  | safety_critical ↦ 2
  | standard ↦ elim c.unclassified [ none ↦ 1 | some why ↦ 2 ]
]

abbrev pub single_lens_source : String
single_lens_source = "fallback:lens"

abbrev pub delta_source : String
delta_source = "fallback:delta"

-- `_one_lens_is_owed(review_class, source, composed=composed)`, for a source that is a text
unfoldable pub one_lens_is_owed : ReviewClass → String → Bool → Bool
unfolding lens_floor
one_lens_is_owed c source composed = elim c.class [
  | safety_critical ↦ false
  | standard ↦ elim c.unclassified [
    | some why ↦ false
    | none ↦ if strip source == delta_source then composed else strip source == single_lens_source
  ]
]
