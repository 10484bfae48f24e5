-- ===== src/PrWatch/Poll.antt =====
-- One poll against the state file: `_settle_baseline_fields`, `persist_settle_baseline`,
-- `persist_poll` and the plain-poll path of `main` of scripts/pr_watch.py.
pub mod Carry
pub mod Carried
pub mod Ageing
pub mod Acks
use agentic_dev_kit.Base.{
  ℕ, String, Bool, true, false, ◌&&◌, ◌||◌, not, Option, none, some, List, [], ◌∷◌, ◌++◌,
  if◌then◌else◌, eqb, ◌+◌, or_text, ◌==◌,
}
use agentic_dev_kit.Base.Json.{
  ℤ, pos, negsuc, Json, null, bool, int, float, str, arr, obj, Items, nil, cons, Fields, end, field,
  get, put, as_text, as_obj, text_items,
}
use agentic_dev_kit.PrWatch.Config.{Config}
use agentic_dev_kit.PrWatch.Clock.{Clock}
use agentic_dev_kit.PrWatch.Comments.{Digest}
use agentic_dev_kit.PrWatch.Repo.{Repo}
use agentic_dev_kit.PrWatch.State.{
  StateFile, missing, corrupt, holds, load_state, seen_of, put_seen, read_pending_since,
  read_settle_since, write_pending_since, recorded_review_rounds,
}
use agentic_dev_kit.PrWatch.Gate.{
  View, Prior, Backend, gh, rest, Reads, Blocker, state_unreadable, state_not_object, state_gone,
  settle_unsaved,
}
use agentic_dev_kit.PrWatch.Gate.Report.{Report, build_report}

abbrev pub head_json : Option String → Json
head_json none = null
head_json (some h) = str h

abbrev pub backend_name : Backend → String
backend_name gh = "gh"
backend_name rest = "rest"

abbrev pub settle_json : Report → Json
settle_json r = obj (
    field "head" (head_json r.head) (
      field "at" (str r.gathered.settle.since)
        (field "total" (int (pos r.gathered.checks.total)) end)))

-- `state.update(_settle_baseline_fields(report))`
unfoldable pub put_settle_baseline : Fields → Report → Fields
put_settle_baseline state r =
    put
      (put
        (put (put state "head" (head_json r.head)) "max_total"
          (int (pos r.gathered.settle.max_total)))
        "max_total_backend" (str (backend_name r.backend)))
      "settle_since" (settle_json r)

abbrev pub text_of_head : Report → String
text_of_head r = or_text r.head ""

is_text : Option Json → String → Bool
is_text stored s = elim (as_text stored) [ none ↦ false | some t ↦ t == s ]

is_count : Option Json → ℕ → Bool
is_count (some (int (pos m))) n = eqb m n
is_count _ n = false

field_count : Fields → ℕ
field_count end = 0
field_count (field k v fs) = field_count fs + 1

same_settle : Option Fields → Report → Bool
unfolding is_text is_count field_count
same_settle none r = false
same_settle (some fs) r =
    is_text (get fs "head") (text_of_head r)
    && (is_text (get fs "at") r.gathered.settle.since
        && (is_count (get fs "total") r.gathered.checks.total && eqb (field_count fs) 3))

-- `all(state.get(key) == value for key, value in fields.items())`, for a report that has a head
unfoldable pub already_recorded : Fields → Report → Bool
unfolding same_settle
already_recorded state r =
    is_text (get state "head") (text_of_head r)
    && (is_count (get state "max_total") r.gathered.settle.max_total
        && (is_text (get state "max_total_backend") (backend_name r.backend)
            && same_settle (as_obj (get state "settle_since")) r))

-- a report whose authorization is withdrawn
unfoldable pub withdraw : Report → Blocker → Report
withdraw r b = record r {
  mergeable = false;
  done = false;
  merge_blockers = r.merge_blockers ++ b ∷ [];
}

pub record Persisted : Type 0 where
  pub file : StateFile
  pub report : Report
  pub written : Bool

abbrev unwritten : StateFile → Report → Persisted
unwritten file r = record { file = file; report = r; written = false }

-- The write that ends `persist_settle_baseline`. `after` is the file that a failed write leaves.
unfoldable pub record_baseline : StateFile → Fields → Report → Option StateFile → Persisted
record_baseline file state r after =
    if already_recorded state r then unwritten file r else elim after [
      | none ↦ record {
        file = holds (obj (put_settle_baseline state r));
        report = r;
        written = true;
      }
      | some left ↦ unwritten left (withdraw r settle_unsaved)
    ]

-- the part below the tests on the report
unfoldable pub persist_to : StateFile → Report → Option StateFile → Persisted
persist_to (holds (obj state)) r after = record_baseline (holds (obj state)) state r after
persist_to (holds j) r after = unwritten (holds j) (withdraw r state_not_object)
persist_to corrupt r after = unwritten corrupt (withdraw r state_unreadable)
persist_to missing r after =
    if r.mergeable
    then unwritten missing (withdraw r state_gone)
    else record_baseline missing end r after

abbrev pub is_rest : Backend → Bool
is_rest rest = true
is_rest gh = false

-- `persist_settle_baseline(pr, report)`
unfoldable pub persist_settle_baseline : StateFile → Report → Option StateFile → Persisted
persist_settle_baseline file r after =
    if text_of_head r == "" || is_rest r.backend then unwritten file r else persist_to file r after

unfoldable pub carry_receipt : Fields → Option Json → Fields
carry_receipt state (some (obj receipt)) = put state "review_receipt" (obj receipt)
carry_receipt state _ = state

unfoldable pub carry_rounds : Fields → Items → Fields
carry_rounds state nil = state
carry_rounds state (cons x xs) = put state "review_rounds" (arr (cons x xs))

-- the part of the new state that comes from this poll
unfoldable pub poll_state : Report → List String → Fields
poll_state r seen =
    write_pending_since
      (put (put_settle_baseline (put_seen end seen) r) "pending_seen"
        (arr (text_items r.all_seen_keys)))
      r.head r.gathered.review_bots.pending_since

-- `persist_poll(pr, report, seen)`
unfoldable pub persist_poll : StateFile → Report → List String → Fields
unfolding carry_receipt carry_rounds
persist_poll file r seen =
    let previous = load_state file in
    carry_rounds (carry_receipt (poll_state r seen) (get previous "review_receipt"))
      (recorded_review_rounds (get previous "review_rounds"))

-- `int(state.get("max_total") or 0)`, for a stored number; a negative one is below every count
unfoldable pub stored_count : Option Json → ℕ
stored_count (some (int (pos n))) = n
stored_count (some (bool true)) = 1
stored_count _ = 0

unfoldable pub prior_of : Fields → Option String → Prior
prior_of state head = record {
  head = get state "head";
  max_total = stored_count (get state "max_total");
  receipt = get state "review_receipt";
  pending_since = read_pending_since state head;
  settle = read_settle_since state head;
}

module _ (clk : Clock) (cfg : Config) (dg : Digest) (repo : Repo) where
  -- the report of a poll, from the state that the file holds
  unfoldable pub poll_report : StateFile → View → Reads → ℕ → Report
  poll_report file view reads now =
      let state = load_state file in
      build_report clk cfg dg repo view (seen_of state) reads (prior_of state view.head) now

  -- a plain poll: the state that it writes, and its report
  unfoldable pub plain_poll : StateFile → View → Reads → ℕ → Fields × Report
  plain_poll file view reads now =
      let r = poll_report file view reads now in
      (persist_poll file r (seen_of (load_state file)), r)

  -- a `--no-persist` poll
  unfoldable pub no_persist_poll : StateFile → View → Reads → ℕ → Option StateFile → Persisted
  no_persist_poll file view reads now after =
      persist_settle_baseline file (poll_report file view reads now) after
