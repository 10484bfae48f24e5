-- ===== src/Systemize/Heartbeat/Life.antt =====
-- Every file that a heartbeat can come to lets the heartbeat go on.
use agentic_dev_kit.Base.{
  String, ◌≡◌, refl, sym, ◌∙◌, ◌⊎◌, inl, inr, true, Option, none, some, elem,
}
use agentic_dev_kit.Base.Json.{ℤ, Json, int, arr, obj, Items, nil, cons, Fields, get}
use agentic_dev_kit.Systemize.Errors.{done, bind_inv, given_inv, then_inv, done_inj}
use agentic_dev_kit.Systemize.Identity.{
  Artifact, absent, holds, header, identity_digest, heartbeat_kind, require_same_run,
}
use agentic_dev_kit.Systemize.Heartbeat.{
  Host, Moment, Envelope, read, start, tick, complete, start_body, restarts_of, enter, step_entry,
}
use agentic_dev_kit.Systemize.Heartbeat.Reads.{require_same_run-header, require_same_run-SameHeader}
use agentic_dev_kit.Systemize.Heartbeat.Log.{append_items}
use agentic_dev_kit.Systemize.Heartbeat.Progress.{Grows}
use agentic_dev_kit.Systemize.Heartbeat.Accepted.{
  Grows-SameHeader, write_inv, tick_inv, complete_inv,
}

-- nothing outside the heartbeat stops the invocation
pub record IsClear (m : Moment) : Type 0 where
  pub safe : m.targets_safe ≡ true
  pub free : m.lock_free ≡ true
  pub still : m.still_safe ≡ true
  pub written : m.written ≡ true

module _ (host : Host) (identity : Fields) (job : Json) where
  -- accepted invocations of one heartbeat since its path was free
  pub data Life : Artifact → Type 0 where
    fresh : Life absent
    starts :
        {f g : Artifact} (m : Moment) (e : Envelope)
        → Life f
        → start host identity job m f ≡ done (g, e)
        → Life g
    ticks :
        {f g : Artifact} (m : Moment) (step : String) (slice_text run_digest : Option String)
        (e : Envelope)
        → Life f
        → tick host identity job m step slice_text run_digest f ≡ done (g, e)
        → Life g
    completes :
        {f g : Artifact} (m : Moment) (reason : String) (e : Envelope)
        → Life f
        → complete host identity job m reason f ≡ done (g, e)
        → Life g

  -- what the next invocation relies on
  pub record IsUsable (s : Fields) : Type 0 where
    pub own : require_same_run host.digest s heartbeat_kind identity ≡ done tt
    pub steps : (xs : Items) × (get s "steps" ≡ some (arr xs))
    pub restarts : (n : ℤ) × (get s "restarts" ≡ some (int n))

  Grows-IsUsable : (s t : Fields) → Grows s t → IsUsable s → IsUsable t
  unfolding elem
  Grows-IsUsable s t g u = record {
    own =
        require_same_run-SameHeader host.digest heartbeat_kind identity s t (Grows-SameHeader s t g)
        ∙ u.own;
    steps = let (ys, e) = g.steps u.steps.0 u.steps.1 in (append_items u.steps.0 ys, e);
    restarts = (u.restarts.0, g.fixed "restarts" refl ∙ u.restarts.1);
  }

  header-IsUsable :
      (n : ℤ) (now : String) (s : Fields)
      → header host.digest heartbeat_kind identity (start_body job n now) ≡ done s
      → IsUsable s
  unfolding header identity_digest start_body get
  header-IsUsable n now s h =
      let (d, _, b) = given_inv (host.digest identity) _ _ s h in
      record {
        own = require_same_run-header host.digest heartbeat_kind identity _ s h;
        steps = (cons (step_entry "start" none now) nil, rw (← done_inj b) refl);
        restarts = (n, rw (← done_inj b) refl);
      }

  start_inv :
      (m : Moment) (f g : Artifact) (e : Envelope)
      → start host identity job m f ≡ done (g, e)
      → (s : Fields) × (g ≡ holds (obj s)) × IsUsable s
  unfolding start
  start_inv m f g e h =
      let (_, h1) = then_inv (enter host identity job m) _ (g, e) h in
      let (previous, _, h2) = bind_inv (read host identity job f) _ (g, e) h1 in
      let (n, _, h3) = bind_inv (restarts_of host previous) _ (g, e) h2 in
      let (s, made, h4) =
        bind_inv (header host.digest heartbeat_kind identity (start_body job n m.now)) _ (g, e)
          h3 in
      (s, write_inv host identity job m s g e h4, header-IsUsable n m.now s made)

  still-IsUsable :
      (f : Artifact) (s t : Fields)
      → (f ≡ absent) ⊎ ((u : Fields) × (f ≡ holds (obj u)) × IsUsable u)
      → f ≡ holds (obj s)
      → Grows s t
      → IsUsable t
  still-IsUsable f s t (inl none_there) found g = cc none_there
  still-IsUsable f s t (inr (u, there, usable)) found g =
      let same : holds (obj u) ≡ holds (obj s) = sym there ∙ found in
      let it : u ≡ s = cc same in Grows-IsUsable s t g (rw (← it) usable)

  pub Life-IsUsable :
      {f : Artifact} → Life f → (f ≡ absent) ⊎ ((s : Fields) × (f ≡ holds (obj s)) × IsUsable s)
  Life-IsUsable fresh = inl refl
  Life-IsUsable (starts {f} {g} m e l h) = inr (start_inv m f g e h)
  Life-IsUsable (ticks {f} {g} m step slice_text run_digest e l h) =
      let a = tick_inv host identity job m step slice_text run_digest f g e h in
      inr (a.next, a.wrote, still-IsUsable f a.state a.next (Life-IsUsable l) a.found a.grows)
  Life-IsUsable (completes {f} {g} m reason e l h) =
      let c = complete_inv host identity job m reason f g e h in
      inr (c.next, c.wrote, still-IsUsable f c.state c.next (Life-IsUsable l) c.found c.grows)
