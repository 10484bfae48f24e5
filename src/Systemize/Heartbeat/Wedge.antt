-- ===== src/Systemize/Heartbeat/Wedge.antt =====
-- A heartbeat that is not complete can always be started again and completed.
use agentic_dev_kit.Base.{
  String, ◌≡◌, refl, sym, ap, ◌∙◌, ◌⊎◌, inl, inr, true, false, Option, none, some,
}
use agentic_dev_kit.Base.Json.{is_str, ℤ, pos, Json, arr, obj, Items, cons, nil, Fields, get, put}
use agentic_dev_kit.Systemize.Errors.{Try, done, ◌>>=◌, ◌>>◌}
use agentic_dev_kit.Systemize.Identity.{Artifact, absent, holds, header, identity_digest}
use agentic_dev_kit.Systemize.Heartbeat.{
  Host, Moment, Envelope, read, write, start, complete, complete_state, completed, add_one,
  restarts_of, enter, is_reason, stamp_complete, step_entry,
}
use agentic_dev_kit.Systemize.Heartbeat.Reads.{read-holds}
use agentic_dev_kit.Systemize.Heartbeat.Log.{append_items, append_step_lem}
use agentic_dev_kit.Systemize.Heartbeat.Generation.{stamp_complete-Grows}
use agentic_dev_kit.Systemize.Heartbeat.Accepted.{complete-holds}
use agentic_dev_kit.Systemize.Heartbeat.Life.{IsClear, Life, IsUsable, Life-IsUsable}

module _ (host : Host) (identity : Fields) (job : Json) where
  -- a call that is accepted
  abbrev pub Accepts : Try (Artifact × Envelope) → Type 0
  Accepts r = (g : Artifact) × (e : Envelope) × (r ≡ done (g, e))

  write-clear : (m : Moment) (s : Fields) → IsClear m → Accepts (write host identity job m s)
  unfolding write ◌>>=◌ ◌>>◌
  write-clear m s c = (
    holds (obj s),
    record { status = get s "status"; current_step = get s "current_step" },
    rw (c.still, c.written) refl,
  )

  start_with :
      (m : Moment) (f : Artifact) (previous : Option Fields) (n : ℤ) (d : String)
      → IsClear m
      → host.digest identity ≡ some d
      → read host identity job f ≡ done previous
      → restarts_of host previous ≡ done n
      → Accepts (start host identity job m f)
  unfolding start enter header identity_digest ◌>>=◌ ◌>>◌
  start_with m f previous n d c canonical r again =
      rw (c.safe, c.free) (rw r (rw again (rw canonical (write-clear m _ c))))

  start-Accepts :
      (m : Moment) (f : Artifact) (d : String)
      → IsClear m
      → host.digest identity ≡ some d
      → (f ≡ absent) ⊎ ((s : Fields) × (f ≡ holds (obj s)) × IsUsable host identity job s)
      → Accepts (start host identity job m f)
  unfolding read restarts_of ◌>>=◌
  start-Accepts m f d c canonical (inl none_there) =
      start_with m f none (pos 0) d c canonical (rw none_there refl) refl
  start-Accepts m f d c canonical (inr (s, there, u)) =
      start_with m f (some s) (add_one u.restarts.0) d c canonical
        (ap (read host identity job) there ∙ read-holds host identity s job u.own)
        (rw u.restarts.1 refl)

  completed-Accepts :
      (s : Fields) (reason now : String) (xs : Items)
      → get s "steps" ≡ some (arr xs)
      → (t : Fields) × (completed s reason now ≡ done t)
  unfolding completed ◌>>=◌
  completed-Accepts s reason now xs e =
      let stamped = stamp_complete s reason now in
      let (ys, there) = (stamp_complete-Grows s reason now).steps xs e in
      let entry = step_entry "done" none now in
      (
        put stamped "steps" (arr (append_items (append_items xs ys) (cons entry nil))),
        rw there (rw (append_step_lem (append_items xs ys) entry) refl),
      )

  complete_unfinished :
      (m : Moment) (reason : String) (f : Artifact) (s t : Fields)
      → IsClear m
      → is_str (get s "status") "complete" ≡ false
      → completed s reason m.now ≡ done t
      → Accepts (complete_state host identity job m reason f s)
  unfolding complete_state ◌>>=◌
  complete_unfinished m reason f s t c unfinished e = rw unfinished (rw e (write-clear m t c))

  complete-Accepts :
      (m : Moment) (reason : String) (s : Fields)
      → IsClear m
      → is_reason reason ≡ true
      → IsUsable host identity job s
      → is_str (get s "status") "complete" ≡ false
      → Accepts (complete host identity job m reason (holds (obj s)))
  complete-Accepts m reason s c known u unfinished =
      let (t, e) = completed-Accepts s reason m.now u.steps.0 u.steps.1 in
      rw (complete-holds host identity job m reason s known c.safe c.free u.own)
        (complete_unfinished m reason (holds (obj s)) s t c unfinished e)

  IsUsable-at :
      (f : Artifact) (s : Fields)
      → (f ≡ absent) ⊎ ((t : Fields) × (f ≡ holds (obj t)) × IsUsable host identity job t)
      → f ≡ holds (obj s)
      → IsUsable host identity job s
  IsUsable-at f s (inl none_there) found = cc none_there
  IsUsable-at f s (inr (t, there, u)) found =
      let same : holds (obj t) ≡ holds (obj s) = sym there ∙ found in
      let it : t ≡ s = cc same in rw (← it) u

  -- A heartbeat never blocks itself before its completion: whatever starts, ticks and completions
  -- were accepted on a path that was free, an invocation that nothing outside stops can start it
  -- where there is no state yet, and where the state it finds is not complete it can start it again
  -- and can complete it with either reason. On a complete state nothing is claimed.
  pub Life-continues :
      {f : Artifact} (m : Moment) (d : String)
      → Life host identity job f
      → IsClear m
      → host.digest identity ≡ some d
      → (f ≡ absent → Accepts (start host identity job m f))
        × ((s : Fields)
            → f ≡ holds (obj s)
            → is_str (get s "status") "complete" ≡ false
            → Accepts (start host identity job m f)
              × ((reason : String)
                  → is_reason reason ≡ true
                  → Accepts (complete host identity job m reason f)))
  Life-continues {f} m d l c canonical =
      let starts_over = start-Accepts m f d c canonical (Life-IsUsable host identity job l) in
      (
        λ none_there. starts_over,
        λ s found unfinished. (
          starts_over,
          λ reason known. rw found (
              complete-Accepts m reason s c known
                (IsUsable-at f s (Life-IsUsable host identity job l) found) unfinished),
        ),
      )
