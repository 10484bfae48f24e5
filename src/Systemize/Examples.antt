-- ===== src/Systemize/Examples.antt =====
-- The theorems on heartbeats, at one that is started, ticked and completed.
mod Digests
use agentic_dev_kit.Base.{String, ◌≡◌, refl, true, false, none, some}
use agentic_dev_kit.Base.Json.{int, pos, is_str, str, obj, Fields, end, get, put}
use agentic_dev_kit.Systemize.Errors.{
  Try, done, stop, slice_regressed, total_changed, invalid_slice, ◌>>=◌, ◌>>◌,
}
use agentic_dev_kit.Systemize.Identity.{header, Artifact, absent, holds, heartbeat_identity}
use agentic_dev_kit.Systemize.Heartbeat.{Host, Moment, Envelope, start, tick, complete, is_reason}
use agentic_dev_kit.Systemize.Heartbeat.Runs.{Run, here, ticks, completes, Extends, run-Extends}
use agentic_dev_kit.Systemize.Heartbeat.Life.{Life, fresh, starts, IsClear}
use agentic_dev_kit.Systemize.Heartbeat.Wedge.{Accepts, Life-continues}

abbrev host : Host
host = record {
  digest = λ fs. elim (get fs "job") [ some (str s) ↦ some s | _ ↦ none ];
  int_of = λ j. none;
}

abbrev identity : Fields
identity = heartbeat_identity "nightly" 7 "2026-01-02" "f" "live"

abbrev at_time : String → Moment
at_time now = record {
  targets_safe = true;
  lock_free = true;
  still_safe = true;
  now = now;
  written = true;
}

abbrev clear : (now : String) → IsClear (at_time now)
clear now = record { safe = refl; free = refl; still = refl; written = refl }

abbrev file_of : Try (Artifact × Envelope) → Artifact
file_of (done out) = out.0
file_of (stop e) = absent

abbrev envelope_of : Try (Artifact × Envelope) → Envelope
envelope_of (done out) = out.1
envelope_of (stop e) = record { status = none; current_step = none }

abbrev state_of : Artifact → Fields
state_of (holds (obj fs)) = fs
state_of f = end

abbrev run_digest : String
run_digest = "sha256:0123456789abcdef0123456789abcdef0123456789abcdef0123456789abcdef"

abbrev start_run : Try (Artifact × Envelope)
start_run = start host identity (str "nightly") (at_time "t0") absent

abbrev started : Fields
started = state_of (file_of start_run)

-- the three invocations, from the file that the start leaves
abbrev tick_on : Try (Artifact × Envelope)
tick_on =
    tick host identity (str "nightly") (at_time "t1") "slice" (some "2/10") (some run_digest)
      (holds (obj started))

abbrev complete_on : Try (Artifact × Envelope)
complete_on = complete host identity (str "nightly") (at_time "t2") "complete" (file_of tick_on)

start_done : start_run ≡ done (holds (obj started), envelope_of start_run)
unfolding start ◌>>◌ ◌>>=◌ header get heartbeat_identity
start_done = refl

tick_done : tick_on ≡ done (file_of tick_on, envelope_of tick_on)
unfolding tick start ◌>>◌ ◌>>=◌ header get put heartbeat_identity
tick_done = refl

complete_done : complete_on ≡ done (file_of complete_on, envelope_of complete_on)
unfolding complete tick start ◌>>◌ ◌>>=◌ header get put heartbeat_identity
complete_done = refl

run : Run host identity (str "nightly") (holds (obj started)) (file_of complete_on)
run =
    completes (at_time "t2") "complete" (envelope_of complete_on)
      (ticks (at_time "t1") "slice" (some "2/10") (some run_digest) (envelope_of tick_on) here
        tick_done)
      complete_done

run-Extends_example :
    (t : Fields) × (file_of complete_on ≡ holds (obj t))
    × Extends host identity (str "nightly") started t
run-Extends_example = run-Extends host identity (str "nightly") started run

life : Life host identity (str "nightly") (holds (obj started))
life = starts (at_time "t0") (envelope_of start_run) fresh start_done

-- the digest of the identity is there
identity_digested : host.digest identity ≡ some "nightly"
unfolding heartbeat_identity get
identity_digested = refl

abbrev IsStartable : Artifact → Type 0
IsStartable f =
    Accepts host identity (str "nightly") (start host identity (str "nightly") (at_time "t3") f)

Life-continues_example :
    (holds (obj started) ≡ absent → IsStartable (holds (obj started)))
    × ((s : Fields)
        → holds (obj started) ≡ holds (obj s)
        → is_str (get s "status") "complete" ≡ false
        → IsStartable (holds (obj started))
          × ((reason : String)
              → is_reason reason ≡ true
              → Accepts host identity (str "nightly") (
                  complete host identity
                    (str "nightly")
                    (at_time "t3")
                    reason
                    (holds (obj started)))))
Life-continues_example =
    Life-continues host identity (str "nightly") (at_time "t3") "nightly" life (clear "t3")
      identity_digested

-- `start` reopens a completed heartbeat; the Engine interface of
-- docs/agentic-dev-kit/workflows/post-merge-systemize.md calls a write after completion a hard stop
abbrev reopened : Try (Artifact × Envelope)
reopened = start host identity (str "nightly") (at_time "t3") (file_of complete_on)

completed_reopens :
    (get (state_of (file_of complete_on)) "status" ≡ some (str "complete"))
    × ((get (state_of (file_of reopened)) "status" ≡ some (str "running"))
        × (get (state_of (file_of reopened)) "restarts" ≡ some (int (pos 1))))
unfolding complete tick start ◌>>◌ ◌>>=◌ header get put heartbeat_identity
completed_reopens = (refl, (refl, refl))

-- a slice may not fall behind the recorded one, nor change its total
slice_falls :
    tick host identity (str "nightly") (at_time "t3") "slice" (some "1/10") none (file_of tick_on)
    ≡ stop slice_regressed
unfolding tick start ◌>>◌ ◌>>=◌ header get put heartbeat_identity
slice_falls = refl

total_differs :
    tick host identity (str "nightly") (at_time "t3") "slice" (some "3/9") none (file_of tick_on)
    ≡ stop total_changed
unfolding tick start ◌>>◌ ◌>>=◌ header get put heartbeat_identity
total_differs = refl

slice_out_of_order :
    tick host identity (str "nightly") (at_time "t3") "slice" (some "11/10") none absent
    ≡ stop invalid_slice
unfolding tick ◌>>◌ ◌>>=◌
slice_out_of_order = refl
