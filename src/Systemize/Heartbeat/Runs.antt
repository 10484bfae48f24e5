-- ===== src/Systemize/Heartbeat/Runs.antt =====
-- Sequences of accepted invocations of a heartbeat, from one start to the next and in all.
use agentic_dev_kit.Base.{String, ◌≡◌, refl, sym, ap, ◌∙◌, inl, inr, false, Option, some}
use mathlib.Core.Bool.{true≢false}
use agentic_dev_kit.Base.Json.{is_str, Json, str, obj, Fields, get}
use agentic_dev_kit.Systemize.Errors.{done}
use agentic_dev_kit.Systemize.Identity.{Artifact, holds}
use agentic_dev_kit.Systemize.Heartbeat.{Host, Moment, Envelope, tick, complete}
use agentic_dev_kit.Systemize.Heartbeat.Progress.{Grows, Grows-refl, Grows-trans}
use agentic_dev_kit.Systemize.Heartbeat.Accepted.{Tick, tick_inv, Completion, complete_inv}

module _ (host : Host) (identity : Fields) (job : Json) where
  -- ticks and completions that were accepted, one after another
  pub data Run (from : Artifact) : Artifact → Type 0 where
    here : Run from from
    ticks :
        {f g : Artifact} (m : Moment) (step : String) (slice_text run_digest : Option String)
        (e : Envelope)
        → Run from f
        → tick host identity job m step slice_text run_digest f ≡ done (g, e)
        → Run from g
    completes :
        {f g : Artifact} (m : Moment) (reason : String) (e : Envelope)
        → Run from f
        → complete host identity job m reason f ≡ done (g, e)
        → Run from g

  -- `t` is a later state of the generation of `s`; a completed state is its last one
  pub record Extends (s t : Fields) : Type 0 where
    pub grows : Grows s t
    pub final : get s "status" ≡ some (str "complete") → t ≡ s

  obj_inj : (s t : Fields) → holds (obj s) ≡ holds (obj t) → s ≡ t
  obj_inj s t h = cc

  Tick-Extends :
      (s : Fields) (f : Artifact)
      → Tick host identity job (holds (obj s)) f
      → (t : Fields) × (f ≡ holds (obj t)) × Extends s t
  Tick-Extends s f a =
      let same = obj_inj s a.state a.found in
      (
        a.next,
        a.wrote,
        record {
          grows = rw same a.grows;
          final = λ h.
              let clash : some (str "running") ≡ some (str "complete") =
                sym a.open_run ∙ ap (λ x. get x "status") (sym same) ∙ h in
              cc clash;
        },
      )

  not_complete :
      (s : Fields)
      → is_str (get s "status") "complete" ≡ false
      → get s "status" ≡ some (str "complete")
      → ⊥
  not_complete s h e = true≢false (sym (ap (λ o. is_str o "complete") e) ∙ h)

  Completion-Extends :
      (reason : String) (s : Fields) (f : Artifact)
      → Completion host identity job reason (holds (obj s)) f
      → (t : Fields) × (f ≡ holds (obj t)) × Extends s t
  Completion-Extends reason s f c =
      let same = obj_inj s c.state c.found in
      (
        c.next,
        c.wrote,
        record {
          grows = rw same c.grows;
          final = λ h. elim c.again_or_new [
            | inl (_, _, kept) ↦ kept ∙ sym same
            | inr (fresh, _, _, _) ↦
                absurd (not_complete c.state fresh (ap (λ x. get x "status") (sym same) ∙ h))
          ];
        },
      )

  Extends-trans : (s t u : Fields) → Extends s t → Extends t u → Extends s u
  Extends-trans s t u a b = record {
    grows = Grows-trans s t u a.grows b.grows;
    final = λ h. let e = a.final h in b.final (ap (λ x. get x "status") e ∙ h) ∙ e;
  }

  -- Between two starts a heartbeat only grows: whatever ticks and completions were accepted on a
  -- state, the file holds a state with the same header, job, start time and restarts, the same run
  -- digest if one was recorded, the same number of slices and an index that did not fall if a slice
  -- was recorded, and the old steps in front of the new ones; and it holds the very state if that
  -- was complete.
  pub run-Extends :
      (s : Fields) {f : Artifact}
      → Run (holds (obj s)) f
      → (t : Fields) × (f ≡ holds (obj t)) × Extends s t
  run-Extends s here = (s, refl, record { grows = Grows-refl s; final = λ h. refl })
  run-Extends s (ticks {f} {g} m step slice_text run_digest e r h) =
      let (t, there, old) = run-Extends s r in
      let (u, there', new) =
        Tick-Extends t g
          (rw (← there) (tick_inv host identity job m step slice_text run_digest f g e h)) in
      (u, there', Extends-trans s t u old new)
  run-Extends s (completes {f} {g} m reason e r h) =
      let (t, there, old) = run-Extends s r in
      let (u, there', new) =
        Completion-Extends reason t g
          (rw (← there) (complete_inv host identity job m reason f g e h)) in
      (u, there', Extends-trans s t u old new)
