-- ===== src/PrWatch/Poll/Carry.antt =====
-- Which keys of the state file a poll writes, and which it carries over.
use agentic_dev_kit.Base.{
  String, ◌≡◌, refl, sym, ◌∙◌, true, false, Option, none, some, List, [], ◌∷◌, arith, inl, inr, ◌⊎◌,
  Bool-cases, elem, ◌==◌,
}
use mathlib.Core.Bool.{false≢true}
use agentic_dev_kit.Base.Json.{obj, Fields, get, get-put}
use agentic_dev_kit.PrWatch.State.{StateFile, missing, corrupt, holds, load_state}
use agentic_dev_kit.PrWatch.Gate.Report.{Report}
use agentic_dev_kit.PrWatch.Poll.{
  put_settle_baseline, already_recorded, withdraw, record_baseline, persist_to,
  persist_settle_baseline, text_of_head, is_rest,
}

-- the keys of `_settle_baseline_fields`
abbrev pub baseline_keys : List String
baseline_keys = "head" ∷ "max_total" ∷ "max_total_backend" ∷ "settle_since" ∷ []

get-put_settle_baseline :
    (state : Fields) (r : Report) (k : String)
    → elem k baseline_keys ≡ false
    → get (put_settle_baseline state r) k ≡ get state k
unfolding put_settle_baseline elem
get-put_settle_baseline state r k h = simp get-put (ground arith)

get-record_baseline :
    (file : StateFile) (r : Report) (k : String)
    → elem k baseline_keys ≡ false
    → get (load_state (record_baseline file (load_state file) r none).file) k
      ≡ get (load_state file) k
unfolding record_baseline
get-record_baseline file r k h = elim (Bool-cases (already_recorded (load_state file) r)) [
  | inl y ↦ rw y
  | inr n ↦ rw n (unfold load_state in get-put_settle_baseline (load_state file) r k h)
]

get-persist_to :
    (file : StateFile) (r : Report) (k : String)
    → elem k baseline_keys ≡ false
    → get (load_state (persist_to file r none).file) k ≡ get (load_state file) k
unfolding persist_to load_state
get-persist_to (holds (obj state)) r k h = get-record_baseline (holds (obj state)) r k h
get-persist_to (holds _) r k h = refl
get-persist_to corrupt r k h = refl
get-persist_to missing r k h = let base = get-record_baseline missing r k h in ground (arith, base)

-- A `--no-persist` poll whose write succeeds changes no key of the state file but the four of the
-- settle baseline: it acknowledges nothing and drops no receipt, round or clock.
pub persist_settle_baseline_keeps :
    (file : StateFile) (r : Report) (k : String)
    → elem k baseline_keys ≡ false
    → get (load_state (persist_settle_baseline file r none).file) k ≡ get (load_state file) k
unfolding persist_settle_baseline
persist_settle_baseline_keeps file r k h =
    let base = get-persist_to file r k h in ground (arith, base)

-- what an authorization that survives the write of the baseline has behind it
abbrev pub Recorded : StateFile → Report → StateFile → Type 0
Recorded file r left =
    (state : Fields) × (file ≡ holds (obj state))
    × ((already_recorded state r ≡ true) ⊎ (left ≡ holds (obj (put_settle_baseline state r))))

no_gain :
    (file : StateFile) (state : Fields) (r : Report) (after : Option StateFile)
    → (record_baseline file state r after).report.mergeable ≡ true
    → r.mergeable ≡ true
unfolding record_baseline withdraw
no_gain file state r none m = ground (arith, m)
no_gain file state r (some left) m = ground (arith, m)

records :
    (state : Fields) (r : Report) (after : Option StateFile)
    → (record_baseline (holds (obj state)) state r after).report.mergeable ≡ true
    → already_recorded state r ≡ false
    → (record_baseline (holds (obj state)) state r after).file
      ≡ holds (obj (put_settle_baseline state r))
unfolding record_baseline withdraw
records state r none m n = ground (arith, n)
records state r (some left) m n = ground (arith, n)

survives-record_baseline :
    (state : Fields) (r : Report) (after : Option StateFile)
    → (record_baseline (holds (obj state)) state r after).report.mergeable ≡ true
    → Recorded (holds (obj state)) r (record_baseline (holds (obj state)) state r after).file
survives-record_baseline state r after m = elim (Bool-cases (already_recorded state r)) [
  | inl y ↦ (state, refl, inl y)
  | inr n ↦ (state, refl, inr (records state r after m n))
]

missing_withdrawn :
    (r : Report) (after : Option StateFile) → (persist_to missing r after).report.mergeable ≡ false
unfolding persist_to withdraw record_baseline
missing_withdrawn r none = ground arith
missing_withdrawn r (some left) = ground arith

survives-persist_to :
    (file : StateFile) (r : Report) (after : Option StateFile)
    → (persist_to file r after).report.mergeable ≡ true
    → (r.mergeable ≡ true) × Recorded file r (persist_to file r after).file
unfolding persist_to withdraw
survives-persist_to (holds (obj state)) r after m =
    (no_gain (holds (obj state)) state r after m, survives-record_baseline state r after m)
survives-persist_to (holds _) r after m = cc
survives-persist_to corrupt r after m = cc
survives-persist_to missing r after m = absurd (false≢true (sym (missing_withdrawn r after) ∙ m))

-- A `--no-persist` poll of a `gh` snapshot with a head authorizes a merge only over a state file
-- that was a readable object, and only where its baseline stands there already or was written.
pub persist_settle_baseline-Recorded :
    (file : StateFile) (r : Report) (after : Option StateFile)
    → (text_of_head r == "") ≡ false
    → is_rest r.backend ≡ false
    → (persist_settle_baseline file r after).report.mergeable ≡ true
    → (r.mergeable ≡ true) × Recorded file r (persist_settle_baseline file r after).file
unfolding persist_settle_baseline
persist_settle_baseline-Recorded file r after h g m =
    rw (h, g, persist_settle_baseline)
      (survives-persist_to file r after (rw (h, g, persist_settle_baseline) at m))
