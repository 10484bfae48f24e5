-- ===== src/Systemize/Heartbeat/Generation.antt =====
-- Ticks and completions: what each leaves of the state, and runs of them.
use agentic_dev_kit.Base.{String, ◌≡◌, refl, ap, ◌∙◌, inl, inr, Option, none, some, elem}
use agentic_dev_kit.Base.Json.{str, Fields, get, put, get-put}
use agentic_dev_kit.Systemize.Errors.{done, bind_inv, given_inv, then_inv, done_inj}
use agentic_dev_kit.Systemize.Tokens.{Slice}
use agentic_dev_kit.Systemize.Heartbeat.{
  step_entry, append_step, check_slice, record_digest, put_slice, ticked, stamp_complete, completed,
}
use agentic_dev_kit.Systemize.Heartbeat.Progress.{
  Grows, Grows-refl, Grows-trans, put_free, put_steps, put_next_slice, record_digest-Grows,
  record_digest_inv,
}

put_slice-Grows :
    (s : Fields) (b : Option Slice)
    → check_slice (get s "slice") b ≡ done tt
    → Grows s (put_slice b s)
unfolding put_slice
put_slice-Grows s none ok = Grows-refl s
put_slice-Grows s (some b) ok = put_next_slice s b ok

-- the slice is what it was when a digest was recorded
record_digest-slice :
    (state t : Fields) (d : Option String)
    → record_digest state d ≡ done t
    → get t "slice" ≡ get state "slice"
record_digest-slice state t d h = elim (record_digest_inv state t d h) [
  | inl e ↦ rw e refl
  | inr (r, ok, e) ↦ rw e (get-put state _ _ _)
]

pub ticked-Grows :
    (state next : Fields) (step : String) (s : Option Slice) (d : Option String) (now : String)
    → ticked state step s d now ≡ done next
    → Grows state next
unfolding ticked elem
ticked-Grows state next step s d now h =
    let (ok, h1) = then_inv (check_slice (get state "slice") s) _ next h in
    let (bound, b, h2) = bind_inv (record_digest state d) _ next h1 in
    let named = put bound "current_step" (str step) in
    let sliced = put_slice s named in
    let stamped = put sliced "updated_at" (str now) in
    let (ys, a, h3) =
      given_inv (append_step (get stamped "steps") (step_entry step s now)) _ _ next h2 in
    let same : get named "slice" ≡ get state "slice" =
      get-put bound _ _ _ ∙ record_digest-slice state bound d b in
    rw (← done_inj h3) (
      Grows-trans _ _ _ (record_digest-Grows state bound d b) (
        Grows-trans _ _ _ (put_free bound "current_step" (str step) refl) (
          Grows-trans _ _ _ (put_slice-Grows named s (ap (λ o. check_slice o s) same ∙ ok)) (
            Grows-trans _ _ _ (put_free sliced "updated_at" (str now) refl)
              (put_steps stamped _ ys a)))))

pub stamp_complete-Grows :
    (state : Fields) (reason now : String) → Grows state (stamp_complete state reason now)
unfolding stamp_complete elem
stamp_complete-Grows state reason now =
    let a = put state "status" (str "complete") in
    let b = put a "exit_reason" (str reason) in
    let c = put b "current_step" (str "done") in
    Grows-trans _ _ _ (put_free state "status" _ refl) (
      Grows-trans _ _ _ (put_free a "exit_reason" _ refl)
        (Grows-trans _ _ _ (put_free b "current_step" _ refl) (put_free c "updated_at" _ refl)))

pub completed-Grows :
    (state next : Fields) (reason now : String)
    → completed state reason now ≡ done next
    → Grows state next
unfolding completed
completed-Grows state next reason now h =
    let stamped = stamp_complete state reason now in
    let (ys, a, h1) =
      given_inv (append_step (get stamped "steps") (step_entry "done" none now)) _ _ next h in
    rw (← done_inj h1)
      (Grows-trans _ _ _ (stamp_complete-Grows state reason now) (put_steps stamped _ ys a))
