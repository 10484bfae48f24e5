-- ===== src/Systemize/Heartbeat/Accepted.antt =====
-- What an accepted tick or completion of a heartbeat went through.
use agentic_dev_kit.Base.{
  String, ◌≡◌, refl, sym, ap, ◌∙◌, ◌⊎◌, inl, inr, Bool, true, false, Option, none, some, eq_iff,
  elem, if◌then◌else◌, Bool-cases,
}
use agentic_dev_kit.Base.Json.{is_str, Json, str, obj, Fields, get, get-put}
use agentic_dev_kit.Systemize.Errors.{
  done, bind_inv, given_inv, guard_inv, then_inv, done_inj, ◌>>=◌, ◌>>◌,
}
use agentic_dev_kit.Systemize.Identity.{Artifact, holds, heartbeat_kind, require_same_run}
use agentic_dev_kit.Systemize.Heartbeat.{
  Host, Moment, Envelope, ticked, completed, stamp_complete, read, write, running, tick, enter,
  complete, complete_state, slice_argument, is_reason,
}
use agentic_dev_kit.Systemize.Heartbeat.Reads.{read_inv, SameHeader, read-holds}
use agentic_dev_kit.Systemize.Heartbeat.Progress.{Grows, Grows-refl}
use agentic_dev_kit.Systemize.Heartbeat.Generation.{ticked-Grows, completed-Grows}

pub is_str-eq : (o : Option Json) (t : String) → is_str o t ≡ true → o ≡ some (str t)
is_str-eq (some (str s)) t h = ap (λ x. some (str x)) ((eq_iff s t).0 h)
is_str-eq (some j) t h = cc
is_str-eq none t h = cc

taken {ℓ} : {A : Type ℓ} (b : Bool) (x y z : A) → b ≡ true → (if b then x else y) ≡ z → x ≡ z
taken true x y z h e = e
taken false x y z h e = cc

skipped {ℓ} : {A : Type ℓ} (b : Bool) (x y z : A) → b ≡ false → (if b then x else y) ≡ z → y ≡ z
skipped false x y z h e = e
skipped true x y z h e = cc

pub Grows-SameHeader : (s t : Fields) → Grows s t → SameHeader s t
unfolding elem
Grows-SameHeader s t g = record {
  kind = g.fixed "artifact_kind" refl;
  schema = g.fixed "schema_version" refl;
  run = g.fixed "run_identity" refl;
  run_digest = g.fixed "run_identity_digest" refl;
}

module _ (host : Host) (identity : Fields) (job : Json) where
  pub write_inv :
      (m : Moment) (state : Fields) (file : Artifact) (e : Envelope)
      → write host identity job m state ≡ done (file, e)
      → file ≡ holds (obj state)
  unfolding write
  write_inv m state file e h =
      let (safe, h1) = guard_inv m.still_safe _ _ (file, e) h in
      let (written, h2) = guard_inv m.written _ _ (file, e) h1 in cc h2

  -- a tick that was accepted
  pub record Tick (file file' : Artifact) : Type 0 where
    pub state : Fields
    pub found : file ≡ holds (obj state)
    pub own : require_same_run host.digest state heartbeat_kind identity ≡ done tt
    pub open_run : get state "status" ≡ some (str "running")
    pub next : Fields
    pub grows : Grows state next
    pub wrote : file' ≡ holds (obj next)

  pub tick_inv :
      (m : Moment) (step : String) (slice_text run_digest : Option String) (file file' : Artifact)
      (e : Envelope)
      → tick host identity job m step slice_text run_digest file ≡ done (file', e)
      → Tick file file'
  unfolding tick running
  tick_inv m step slice_text run_digest file file' e h =
      let (_, h1) = guard_inv _ _ _ (file', e) h in
      let (s, _, h2) = bind_inv (slice_argument slice_text) _ (file', e) h1 in
      let (_, h3) = guard_inv _ _ _ (file', e) h2 in
      let (_, h4) = then_inv (enter host identity job m) _ (file', e) h3 in
      let (state, r, h5) = bind_inv (running host identity job file) _ (file', e) h4 in
      let (next, t, h6) = bind_inv (ticked state step s run_digest m.now) _ (file', e) h5 in
      let (found, f, r1) = bind_inv (read host identity job file) _ state r in
      let (st, o, r2) = given_inv found _ _ state r1 in
      let (open_run, r3) = guard_inv (is_str (get st "status") "running") _ _ state r2 in
      let same : st ≡ state = done_inj r3 in
      let (there, own) = read_inv host identity state job file (f ∙ ap done (o ∙ ap some same)) in
      record {
        state = state;
        found = there;
        own = own;
        open_run = ap (λ x. get x "status") (sym same) ∙ is_str-eq _ "running" open_run;
        next = next;
        grows = ticked-Grows state next step s run_digest m.now t;
        wrote = write_inv m next file' e h6;
      }

  -- a completion that was accepted: of a completed state again, or of another
  pub record Completion (reason : String) (file file' : Artifact) : Type 0 where
    pub known : is_reason reason ≡ true
    pub state : Fields
    pub found : file ≡ holds (obj state)
    pub own : require_same_run host.digest state heartbeat_kind identity ≡ done tt
    pub next : Fields
    pub grows : Grows state next
    pub wrote : file' ≡ holds (obj next)
    pub again_or_new :
        ((get state "status" ≡ some (str "complete"))
          × (get state "exit_reason" ≡ some (str reason))
          × (next ≡ state))
        ⊎ ((is_str (get state "status") "complete" ≡ false)
            × (get next "status" ≡ some (str "complete"))
            × (get next "exit_reason" ≡ some (str reason))
            × (get next "current_step" ≡ some (str "done")))

  completed_keys :
      (state next : Fields) (reason now : String)
      → completed state reason now ≡ done next
      → (get next "status" ≡ some (str "complete"))
        × (get next "exit_reason" ≡ some (str reason))
        × (get next "current_step" ≡ some (str "done"))
  unfolding completed stamp_complete
  completed_keys state next reason now h =
      let (ys, _, e) = given_inv _ _ _ next h in
      rw (← done_inj e) (simp (get-put), simp (get-put), simp (get-put))

  complete_state_inv :
      (m : Moment) (reason : String) (file file' : Artifact) (e : Envelope) (state : Fields)
      → is_reason reason ≡ true
      → file ≡ holds (obj state)
      → require_same_run host.digest state heartbeat_kind identity ≡ done tt
      → complete_state host identity job m reason file state ≡ done (file', e)
      → Completion reason file file'
  unfolding complete_state
  complete_state_inv m reason file file' e state known found own h =
      elim (Bool-cases (is_str (get state "status") "complete")) [
        | inl over ↦ elim (Bool-cases (is_str (get state "exit_reason") reason)) [
          | inl same ↦
              let kept : file ≡ file' = cc (taken _ _ _ _ same (taken _ _ _ _ over h)) in
              record {
                known = known;
                state = state;
                found = found;
                own = own;
                next = state;
                grows = Grows-refl state;
                wrote = sym kept ∙ found;
                again_or_new = inl (is_str-eq _ "complete" over, is_str-eq _ reason same, refl);
              }
          | inr other ↦ cc (skipped _ _ _ _ other (taken _ _ _ _ over h))
        ]
        | inr fresh ↦
            let (next, c, w) =
              bind_inv (completed state reason m.now) _ (file', e) (skipped _ _ _ _ fresh h) in
            let (status, why, step) = completed_keys state next reason m.now c in
            record {
              known = known;
              state = state;
              found = found;
              own = own;
              next = next;
              grows = completed-Grows state next reason m.now c;
              wrote = write_inv m next file' e w;
              again_or_new = inr (fresh, status, why, step);
            }
      ]

  pub complete_inv :
      (m : Moment) (reason : String) (file file' : Artifact) (e : Envelope)
      → complete host identity job m reason file ≡ done (file', e)
      → Completion reason file file'
  unfolding complete
  complete_inv m reason file file' e h =
      let (known, h1) = guard_inv (is_reason reason) _ _ (file', e) h in
      let (_, h2) = then_inv (enter host identity job m) _ (file', e) h1 in
      let (found, f, h3) = bind_inv (read host identity job file) _ (file', e) h2 in
      let (state, o, h4) = given_inv found _ _ (file', e) h3 in
      let (there, own) = read_inv host identity state job file (f ∙ ap done o) in
      complete_state_inv m reason file file' e state known there own h4

  pub complete-holds :
      (m : Moment) (reason : String) (state : Fields)
      → is_reason reason ≡ true
      → m.targets_safe ≡ true
      → m.lock_free ≡ true
      → require_same_run host.digest state heartbeat_kind identity ≡ done tt
      → complete host identity job m reason (holds (obj state))
        ≡ complete_state host identity job m reason (holds (obj state)) state
  unfolding complete enter ◌>>=◌ ◌>>◌
  complete-holds m reason state known safe free own =
      rw (known, safe, free) (rw (read-holds host identity state job own) refl)
