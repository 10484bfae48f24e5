-- ===== src/Systemize/Heartbeat.antt =====
-- The heartbeat of scripts/lib/systemize/heartbeat.py: `start`, `tick` and `complete` as functions of
-- the file at the target's path. What one invocation meets elsewhere is a `Moment`. Publishing a
-- state leaves a file that reads back as that state.
pub mod Reads
pub mod Log
pub mod Generation
pub mod Accepted
pub mod Runs
pub mod Life
pub mod Wedge
pub mod Progress
pub mod Final
use agentic_dev_kit.Base.{
  ℕ, zero, suc, ◌+◌, String, ◌≡◌, Bool, true, false, ◌&&◌, ◌||◌, not, Option, none, some, ltb, eqb,
  if◌then◌else◌, is_some, ◌==◌,
}
use agentic_dev_kit.Base.Json.{
  is_str, ℤ, pos, negsuc, Json, null, bool, int, float, str, arr, obj, Items, nil, cons, Fields,
  end, field, get, put, as_obj,
}
use agentic_dev_kit.Systemize.Errors.{
  SystemizeError, unsafe_target, lock_held, not_started, not_running, invalid_step, invalid_slice,
  invalid_run_digest, total_changed, slice_regressed, digest_differs, invalid_reason,
  already_completed, not_written, crashed, Try, done, stop, ◌>>=◌, ◌>>◌, require, given,
}
use agentic_dev_kit.Systemize.Identity.{
  Artifact, absent, holds, heartbeat_kind, header, require_same_run, parse_artifact,
}
use agentic_dev_kit.Systemize.Tokens.{Slice, read_slice, is_step, is_run_digest}

-- what an invocation meets: whether `check_targets` passes, before the lock and again at the write,
-- whether the lock is free, the time, and whether `dumps` and the rename succeed
pub record Moment : Type 0 where
  pub targets_safe : Bool
  pub lock_free : Bool
  pub still_safe : Bool
  pub now : String
  pub written : Bool

-- the keys of the envelope that tell of the state
pub record Envelope : Type 0 where
  pub status : Option Json
  pub current_step : Option Json

-- `int(value)` for a value that is neither a number nor a truth value is a parameter
pub record Host : Type 0 where
  pub digest : Fields → Option String
  pub int_of : Json → Option ℤ

unfoldable pub add_one : ℤ → ℤ
add_one (pos n) = pos (suc n)
add_one (negsuc zero) = pos zero
add_one (negsuc (suc n)) = negsuc n

-- `value or 0`, then `int(...)`
int_or_0 : Host → Option Json → Option ℤ
int_or_0 host none = some (pos zero)
int_or_0 host (some null) = some (pos zero)
int_or_0 host (some (bool b)) = some (if b then pos 1 else pos zero)
int_or_0 host (some (int n)) = some n
int_or_0 host (some (str s)) = if s == "" then some (pos zero) else host.int_of (str s)
int_or_0 host (some (arr nil)) = some (pos zero)
int_or_0 host (some (obj end)) = some (pos zero)
int_or_0 host (some v) = host.int_of v

-- the restarts of the state that a start replaces
unfoldable pub restarts_of : Host → Option Fields → Try ℤ
unfolding int_or_0 add_one
restarts_of host none = done (pos zero)
restarts_of host (some previous) = do
  n ← given (int_or_0 host (get previous "restarts")) crashed
  done (add_one n)

unfoldable pub slice_json : Option Slice → Json
slice_json none = null
slice_json (some s) =
    obj (field "index" (int (pos s.index)) (field "total" (int (pos s.total)) end))

unfoldable pub step_entry : String → Option Slice → String → Json
unfolding slice_json
step_entry step s now =
    obj (field "step" (str step) (field "slice" (slice_json s) (field "at" (str now) end)))

-- the fields of a started state behind the header
unfoldable pub start_body : Json → ℤ → String → Fields
unfolding step_entry
start_body job restarts now = field "job" job (
    field "status" (str "running") (
      field "exit_reason" null (
        field "started_at" (str now) (
          field "updated_at" (str now) (
            field "restarts" (int restarts) (
              field "systemize_run_identity_digest" null (
                field "current_step" (str "start") (
                  field "slice" null
                    (field "steps" (arr (cons (step_entry "start" none now) nil)) end)))))))))

-- `[*state.get("steps", []), entry]`, where the steps are a list
unfoldable pub append_step : Option Json → Json → Option Items
append_step none entry = some (cons entry nil)
append_step (some (arr nil)) entry = some (cons entry nil)
append_step (some (arr (cons x xs))) entry = elim (append_step (some (arr xs)) entry) [
  | none ↦ none
  | some ys ↦ some (cons x ys)
]
append_step (some _) entry = none

-- `prior.get("total") != total`
unfoldable pub differs : Option Json → ℕ → Bool
differs (some (int (pos m))) n = not (eqb m n)
differs (some (bool b)) n = not (eqb (if b then 1 else 0) n)
differs _ n = true

-- `index < prior.get("index", 0)`; `none` where Python compares no such values
unfoldable pub regresses : ℕ → Option Json → Option Bool
regresses i none = some false
regresses i (some (int (pos m))) = some (ltb i m)
regresses i (some (int (negsuc m))) = some false
regresses i (some (bool b)) = some (ltb i (if b then 1 else 0))
regresses i (some _) = none

-- a slice that follows a recorded one
unfoldable pub follow : Fields → Slice → Try (Unit {0})
unfolding differs regresses
follow prior s = do
  require (not (differs (get prior "total") s.total)) total_changed
  back ← given (regresses s.index (get prior "index")) crashed
  require (not back) slice_regressed

unfoldable pub check_slice : Option Json → Option Slice → Try (Unit {0})
unfolding follow
check_slice (some (obj prior)) (some s) = follow prior s
check_slice _ _ = done tt

-- `recorded in (None, run_digest)`
unfoldable pub may_record : Option Json → String → Bool
may_record none d = true
may_record (some null) d = true
may_record (some (str s)) d = s == d
may_record (some _) d = false

unfoldable pub record_digest : Fields → Option String → Try Fields
unfolding may_record
record_digest state none = done state
record_digest state (some d) = do
  require (may_record (get state "systemize_run_identity_digest") d) digest_differs
  done (put state "systemize_run_identity_digest" (str d))

unfoldable pub put_slice : Option Slice → Fields → Fields
unfolding slice_json
put_slice none state = state
put_slice (some s) state = put state "slice" (slice_json (some s))

-- the slice that `tick` reads from its argument
unfoldable pub slice_argument : Option String → Try (Option Slice)
unfolding read_slice
slice_argument none = done none
slice_argument (some text) = do s ← given (read_slice text) invalid_slice; done (some s)

unfoldable pub digest_argument : Option String → Bool
unfolding is_run_digest
digest_argument none = true
digest_argument (some d) = is_run_digest d

unfoldable pub is_reason : String → Bool
is_reason reason = reason == "complete" || reason == "error"

-- the state that a tick writes over a running one
unfoldable pub ticked : Fields → String → Option Slice → Option String → String → Try Fields
unfolding check_slice record_digest append_step put_slice step_entry
ticked state step s run_digest now = do
  check_slice (get state "slice") s
  bound ← record_digest state run_digest
  let stamped = put (put_slice s (put bound "current_step" (str step))) "updated_at" (str now)
  steps ← given (append_step (get stamped "steps") (step_entry step s now)) crashed
  done (put stamped "steps" (arr steps))

-- `state.update(...)`
unfoldable pub stamp_complete : Fields → String → String → Fields
stamp_complete state reason now =
    put
      (put (put (put state "status" (str "complete")) "exit_reason" (str reason)) "current_step"
        (str "done"))
      "updated_at" (str now)

-- the state that a completion writes
unfoldable pub completed : Fields → String → String → Try Fields
unfolding append_step step_entry stamp_complete
completed state reason now =
    let stamped = stamp_complete state reason now in
    do
      steps ← given (append_step (get stamped "steps") (step_entry "done" none now)) crashed
      done (put stamped "steps" (arr steps))

module _ (host : Host) (identity : Fields) (job : Json) where
  -- `Heartbeat._read`
  unfoldable pub read : Artifact → Try (Option Fields)
  unfolding require_same_run parse_artifact
  read absent = done none
  read file = do
    state ← parse_artifact file
    require_same_run host.digest state heartbeat_kind identity
    done (some state)

  -- `Heartbeat._write`
  unfoldable pub write : Moment → Fields → Try (Artifact × Envelope)
  write m state = do
    require m.still_safe unsafe_target
    require m.written not_written
    done (
      holds (obj state),
      record { status = get state "status"; current_step = get state "current_step" },
    )

  -- `Heartbeat._running`
  unfoldable pub running : Artifact → Try Fields
  unfolding read
  running file = do
    found ← read file
    state ← given found not_started
    require (is_str (get state "status") "running") not_running
    done state

  -- `check_targets` and `locked`
  unfoldable pub enter : Moment → Try (Unit {0})
  enter m = do require m.targets_safe unsafe_target; require m.lock_free lock_held

  -- `Heartbeat.start`
  unfoldable pub start : Moment → Artifact → Try (Artifact × Envelope)
  unfolding enter read restarts_of start_body write
  start m file = do
    enter m
    previous ← read file
    restarts ← restarts_of host previous
    state ← header host.digest heartbeat_kind identity (start_body job restarts m.now)
    write m state

  -- `Heartbeat.tick`
  unfoldable pub tick :
      Moment → String → Option String → Option String → Artifact → Try (Artifact × Envelope)
  unfolding enter running ticked write slice_argument digest_argument is_step
  tick m step slice_text run_digest file = do
    require (is_step step) invalid_step
    s ← slice_argument slice_text
    require (digest_argument run_digest) invalid_run_digest
    enter m
    state ← running file
    next ← ticked state step s run_digest m.now
    write m next

  -- `complete` on a state that is there
  unfoldable pub complete_state : Moment → String → Artifact → Fields → Try (Artifact × Envelope)
  unfolding completed write
  complete_state m reason file state =
      let fresh = (do next ← completed state reason m.now; write m next) in
      if is_str (get state "status") "complete"
      then (if is_str (get state "exit_reason") reason
          then done (
            file,
            record { status = some (str "complete"); current_step = get state "current_step" },
          )
          else stop already_completed)
      else fresh

  -- `Heartbeat.complete`
  unfoldable pub complete : Moment → String → Artifact → Try (Artifact × Envelope)
  unfolding enter read complete_state is_reason
  complete m reason file = do
    require (is_reason reason) invalid_reason
    enter m
    found ← read file
    state ← given found not_started
    complete_state m reason file state
