-- ===== src/Systemize/Identity.antt =====
-- The identity header of scripts/lib/systemize/identity.py, and what `read_regular` and
-- `parse_artifact` find at an artifact's path. The canonical digest is a parameter: `none` where
-- the value is not canonical JSON.
use agentic_dev_kit.Base.{ℕ, String, Bool, false, Option, some, eqb, ◌==◌}
use agentic_dev_kit.Base.Json.{
  Json, int, float, str, obj, pos, Fields, end, field, get, as_obj, is_str,
}
use agentic_dev_kit.Systemize.Errors.{
  no_json, no_object, unreadable, foreign_kind, bad_schema, no_identity, bad_digest, other_run,
  not_canonical, Try, done, stop, ◌>>=◌, ◌>>◌, require, given,
}

-- what stands at the path of an artifact; `holds v` is a file whose bytes decode to `v`
pub data Artifact : Type 0 where
  absent irregular not_json : Artifact
  holds : Json → Artifact

abbrev pub heartbeat_kind : String
heartbeat_kind = "post-merge-systemize-heartbeat"

-- `heartbeat_identity(...)`
unfoldable pub heartbeat_identity : String → ℕ → String → String → String → Fields
heartbeat_identity job window_days date fingerprint mode =
    field "schema" (str "post-merge-systemize-heartbeat-v1") (
      field "job" (str job) (
        field "window_days" (int (pos window_days)) (
          field "date" (str date) (
            field "config_fingerprint" (str fingerprint) (field "execution_mode" (str mode) end)))))

-- `value == 1 and not isinstance(value, bool)`
unfoldable pub is_schema_1 : Option Json → Bool
is_schema_1 (some (int (pos n))) = eqb n 1
is_schema_1 (some (float s)) = s == "1.0"
is_schema_1 _ = false

module _ (digest : Fields → Option String) where
  -- `identity_digest(identity)`
  unfoldable pub identity_digest : Fields → Try String
  identity_digest identity = given (digest identity) not_canonical

  -- `header(kind, identity)`, in front of the other fields of an artifact
  unfoldable pub header : String → Fields → Fields → Try Fields
  unfolding identity_digest
  header kind identity body = do
    d ← identity_digest identity
    done (
        field "artifact_kind" (str kind) (
          field "schema_version" (int (pos 1))
            (field "run_identity" (obj identity) (field "run_identity_digest" (str d) body))))

  -- `check_header(value, kind=kind)`
  unfoldable pub check_header : Fields → String → Try Fields
  unfolding is_schema_1 identity_digest
  check_header value kind = do
    require (is_str (get value "artifact_kind") kind) foreign_kind
    require (is_schema_1 (get value "schema_version")) bad_schema
    identity ← given (as_obj (get value "run_identity")) no_identity
    d ← identity_digest identity
    require (is_str (get value "run_identity_digest") d) bad_digest
    done identity

  -- `require_same_run` on a parsed artifact
  unfoldable pub require_same_run : Fields → String → Fields → Try (Unit {0})
  unfolding check_header identity_digest
  require_same_run value kind identity = do
    recorded ← check_header value kind
    theirs ← identity_digest recorded
    ours ← identity_digest identity
    require (theirs == ours) other_run

-- `parse_artifact(read_regular(path))`
unfoldable pub parse_artifact : Artifact → Try Fields
parse_artifact (holds (obj fs)) = done fs
parse_artifact (holds _) = stop no_object
parse_artifact not_json = stop no_json
parse_artifact _ = stop unreadable
