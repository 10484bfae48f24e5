-- ===== src/Systemize/Heartbeat/Progress.antt =====
-- Within one generation of a heartbeat, from a start to the next, the state only grows.
use agentic_dev_kit.Base.{
  ◌≤◌, String, ◌≡◌, refl, sym, ap, ◌∙◌, ◌⊎◌, inl, inr, true, false, Option, none, some, List, [],
  ◌∷◌, elem, arith, eq_iff, ◌==◌, Bool-cases,
}
use agentic_dev_kit.Base.Json.{Json, str, arr, Items, nil, cons, Fields, get, put, get-put}
use agentic_dev_kit.Systemize.Errors.{done, guard_inv, done_inj, ◌>>=◌, ◌>>◌}
use agentic_dev_kit.Systemize.Tokens.{Slice}
use agentic_dev_kit.Systemize.Heartbeat.Log.{
  append_items, append_items-nil, append_items_assoc, append_step_lem,
}
use agentic_dev_kit.Systemize.Heartbeat.{
  slice_json, append_step, differs, regresses, follow, check_slice, may_record, record_digest,
}

-- the keys that no tick and no completion writes
abbrev pub fixed_keys : List String
fixed_keys =
    "artifact_kind" ∷ "schema_version" ∷ "run_identity" ∷ "run_identity_digest" ∷ "job"
    ∷ "started_at" ∷ "restarts" ∷ []

-- what stood in `s` is kept in `t`: the fixed keys, a recorded run digest, the total of the slices,
-- and the steps; the index of the slices does not fall
pub record Grows (s t : Fields) : Type 0 where
  pub fixed : (k : String) → elem k fixed_keys ≡ true → get t k ≡ get s k
  pub bound :
      (d : String)
      → get s "systemize_run_identity_digest" ≡ some (str d)
      → get t "systemize_run_identity_digest" ≡ some (str d)
  pub slice :
      (a : Slice)
      → get s "slice" ≡ some (slice_json (some a))
      → (b : Slice) × (get t "slice" ≡ some (slice_json (some b)))
        × (b.total ≡ a.total)
        × (a.index ≤ b.index)
  pub steps :
      (xs : Items)
      → get s "steps" ≡ some (arr xs)
      → (ys : Items) × (get t "steps" ≡ some (arr (append_items xs ys)))

pub Grows-refl : (s : Fields) → Grows s s
Grows-refl s = record {
  fixed = λ k h. refl;
  bound = λ d h. h;
  slice = λ a h. (a, h, refl, omega arith);
  steps = λ xs h. (nil, rw (append_items-nil xs) h);
}

pub Grows-trans : (s t u : Fields) → Grows s t → Grows t u → Grows s u
Grows-trans s t u a b = record {
  fixed = λ k h. b.fixed k h ∙ a.fixed k h;
  bound = λ d h. b.bound d (a.bound d h);
  slice = λ i h.
      let (j, e, same, le) = a.slice i h in
      let (k, e', same', le') = b.slice j e in (k, e', same' ∙ same, omega arith);
  steps = λ xs h.
      let (ys, e) = a.steps xs h in
      let (zs, e') = b.steps (append_items xs ys) e in
      (append_items ys zs, e' ∙ ap (λ v. some (arr v)) (append_items_assoc xs ys zs));
}

-- the keys whose values the record above speaks of
abbrev pub kept_keys : List String
kept_keys = "systemize_run_identity_digest" ∷ "slice" ∷ "steps" ∷ fixed_keys

not_same :
    (j k : String) (ks : List String) → elem j ks ≡ false → elem k ks ≡ true → (j == k) ≡ false
not_same j k ks out h = elim (Bool-cases (j == k)) [
  | inl e ↦ let same : j ≡ k = (eq_iff j k).0 e in cc
  | inr n ↦ n
]

pub get-put_other :
    (s : Fields) (j k : String) (v : Json) (ks : List String)
    → elem j ks ≡ false
    → elem k ks ≡ true
    → get (put s j v) k ≡ get s k
get-put_other s j k v ks out h = get-put s j k v ∙ rw (not_same j k ks out h) refl

elem_behind :
    (k a b c : String) (ks : List String) → elem k ks ≡ true → elem k (a ∷ b ∷ c ∷ ks) ≡ true
unfolding elem
elem_behind k a b c ks h = ground (arith, h)

-- a value that is not among those keeps them
free_kept :
    (s : Fields) (j k : String) (v : Json)
    → elem j kept_keys ≡ false
    → elem k kept_keys ≡ true
    → get (put s j v) k ≡ get s k
free_kept s j k v out h = get-put_other s j k v kept_keys out h

pub put_free : (s : Fields) (j : String) (v : Json) → elem j kept_keys ≡ false → Grows s (put s j v)
unfolding elem
put_free s j v out = record {
  fixed = λ k h. free_kept s j k v out (elem_behind k _ _ _ fixed_keys h);
  bound = λ d h. free_kept s j "systemize_run_identity_digest" v out refl ∙ h;
  slice = λ a h. (a, free_kept s j "slice" v out refl ∙ h, refl, omega arith);
  steps = λ xs h. (nil, free_kept s j "steps" v out refl ∙ rw (append_items-nil xs) h);
}

may_record_same : (d r : String) → may_record (some (str d)) r ≡ true → r ≡ d
unfolding may_record
may_record_same d r h = sym ((eq_iff d r).0 h)

put_digest :
    (s : Fields) (r : String)
    → may_record (get s "systemize_run_identity_digest") r ≡ true
    → Grows s (put s "systemize_run_identity_digest" (str r))
unfolding elem
put_digest s r ok = record {
  fixed = λ k h. get-put_other s _ k (str r) fixed_keys refl h;
  bound = λ d h.
      get-put s _ _ (str r)
      ∙ ap (λ x. some (str x)) (may_record_same d r (ap (λ o. may_record o r) (sym h) ∙ ok));
  slice = λ a h. (a, get-put s _ _ (str r) ∙ h, refl, omega arith);
  steps = λ xs h. (nil, get-put s _ _ (str r) ∙ rw (append_items-nil xs) h);
}

-- a slice that was accepted behind a recorded one
pub check_slice-follows :
    (a b : Slice)
    → check_slice (some (slice_json (some a))) (some b) ≡ done tt
    → (b.total ≡ a.total) × (a.index ≤ b.index)
unfolding check_slice slice_json follow differs regresses get ◌>>=◌ ◌>>◌
check_slice-follows a b h = ground arith

pub put_next_slice :
    (s : Fields) (b : Slice)
    → check_slice (get s "slice") (some b) ≡ done tt
    → Grows s (put s "slice" (slice_json (some b)))
unfolding elem
put_next_slice s b ok = record {
  fixed = λ k h. get-put_other s _ k _ fixed_keys refl h;
  bound = λ d h. get-put s _ _ _ ∙ h;
  slice = λ a h.
      let (same, le) = check_slice-follows a b (ap (λ o. check_slice o (some b)) (sym h) ∙ ok) in
      (b, get-put s _ _ _, same, le);
  steps = λ xs h. (nil, get-put s _ _ _ ∙ rw (append_items-nil xs) h);
}

pub put_steps :
    (s : Fields) (entry : Json) (ys : Items)
    → append_step (get s "steps") entry ≡ some ys
    → Grows s (put s "steps" (arr ys))
unfolding elem
put_steps s entry ys ok = record {
  fixed = λ k h. get-put_other s _ k _ fixed_keys refl h;
  bound = λ d h. get-put s _ _ _ ∙ h;
  slice = λ a h. (a, get-put s _ _ _ ∙ h, refl, omega arith);
  steps = λ xs h.
      let grown : some ys ≡ some (append_items xs (cons entry nil)) =
        sym ok ∙ ap (λ o. append_step o entry) h ∙ append_step_lem xs entry in
      let same : ys ≡ append_items xs (cons entry nil) = cc grown in
      (cons entry nil, get-put s _ _ _ ∙ ap (λ v. some (arr v)) same);
}

pub record_digest_inv :
    (state t : Fields) (d : Option String)
    → record_digest state d ≡ done t
    → (t ≡ state)
      ⊎ ((r : String) × (may_record (get state "systemize_run_identity_digest") r ≡ true)
          × (t ≡ put state "systemize_run_identity_digest" (str r)))
unfolding record_digest
record_digest_inv state t none h = inl (sym (done_inj h))
record_digest_inv state t (some r) h =
    let (ok, e) = guard_inv (may_record (get state "systemize_run_identity_digest") r) _ _ t h in
    inr (r, ok, sym (done_inj e))

pub record_digest-Grows :
    (state t : Fields) (d : Option String) → record_digest state d ≡ done t → Grows state t
record_digest-Grows state t d h = elim (record_digest_inv state t d h) [
  | inl e ↦ rw e (Grows-refl state)
  | inr (r, ok, e) ↦ rw e (put_digest state r ok)
]
