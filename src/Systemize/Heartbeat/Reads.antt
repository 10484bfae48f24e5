-- ===== src/Systemize/Heartbeat/Reads.antt =====
-- What a heartbeat's own read makes of a state that the heartbeat wrote.
use agentic_dev_kit.Base.{ap, String, ◌≡◌, refl, Option, some, eq_refl}
use agentic_dev_kit.Base.Json.{Json, obj, str, int, pos, field, Fields, get}
use agentic_dev_kit.Systemize.Errors.{done, given_inv, then_inv, done_inj, ◌>>=◌, ◌>>◌}
use agentic_dev_kit.Systemize.Identity.{
  Artifact, absent, irregular, not_json, holds, heartbeat_kind, identity_digest, header,
  check_header, require_same_run, parse_artifact,
}
use agentic_dev_kit.Systemize.Heartbeat.{Host, read}

-- the header keys of two states agree
pub record SameHeader (s t : Fields) : Type 0 where
  pub kind : get t "artifact_kind" ≡ get s "artifact_kind"
  pub schema : get t "schema_version" ≡ get s "schema_version"
  pub run : get t "run_identity" ≡ get s "run_identity"
  pub run_digest : get t "run_identity_digest" ≡ get s "run_identity_digest"

module _ (digest : Fields → Option String) (kind : String) (identity : Fields) where
  pub require_same_run-SameHeader :
      (s t : Fields)
      → SameHeader s t
      → require_same_run digest t kind identity ≡ require_same_run digest s kind identity
  unfolding require_same_run check_header
  require_same_run-SameHeader s t same = rw (same.kind, same.schema, same.run, same.run_digest)

  own_header :
      (d : String) (body : Fields)
      → digest identity ≡ some d
      → require_same_run digest
          (field "artifact_kind" (str kind) (
            field "schema_version"
              (int (pos 1))
              (field "run_identity" (obj identity) (field "run_identity_digest" (str d) body))))
          kind
          identity
        ≡ done tt
  unfolding require_same_run ◌>>=◌ ◌>>◌ get identity_digest
  own_header d body e = rw (eq_refl kind, e, eq_refl d) (rw e (rw (eq_refl d) refl))

  -- an artifact with its own header is one of its run
  pub require_same_run-header :
      (body state : Fields)
      → header digest kind identity body ≡ done state
      → require_same_run digest state kind identity ≡ done tt
  unfolding header identity_digest
  require_same_run-header body state h =
      let (d, e, b) = given_inv (digest identity) _ _ state h in
      rw (← done_inj b) (own_header d body e)

-- a state that is there is read as it stands
pub read-holds :
    (host : Host) (identity state : Fields) (job : Json)
    → require_same_run host.digest state heartbeat_kind identity ≡ done tt
    → read host identity job (holds (obj state)) ≡ done (some state)
unfolding read ◌>>=◌ ◌>>◌
read-holds host identity state job h = rw h refl

pub read_inv :
    (host : Host) (identity state : Fields) (job : Json) (file : Artifact)
    → read host identity job file ≡ done (some state)
    → (file ≡ holds (obj state))
      × (require_same_run host.digest state heartbeat_kind identity ≡ done tt)
unfolding read parse_artifact ◌>>=◌
read_inv host identity state job absent h = cc
read_inv host identity state job irregular h = cc
read_inv host identity state job not_json h = cc
read_inv host identity state job (holds (obj fs)) h =
    let (same, e) =
      then_inv (require_same_run host.digest fs heartbeat_kind identity) _ (some state) h in
    let it : fs ≡ state = cc e in (ap (λ x. holds (obj x)) it, rw (← it) same)
read_inv host identity state job (holds j) h = cc
