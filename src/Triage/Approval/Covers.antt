-- ===== src/Triage/Approval/Covers.antt =====
-- What an accepted reply decides: every candidate once, with its own digest, and filed only by name.
use Prim.Native.Char.{Char}
use agentic_dev_kit.Base.{
  String, ◌≡◌, refl, ap, sym, ◌∙◌, inl, inr, Bool, true, false, ◌&&◌, ◌||◌, not, Option, none, some,
  List, [], ◌∷◌, map, if◌then◌else◌, elem, any, all, contains, ◌==◌, eq_iff, eq_refl, arith,
  Bool-cases, &&-left, &&-right,
}
use agentic_dev_kit.Triage.Commands.{split_on, newline, space, command_of}
use agentic_dev_kit.Triage.Approval.{
  Proposal, Verdict, file, Decision, comma, mixed, only_approve_all, all_not_alone, malformed_ids,
  Parsed, parsed, held, is_shown, decision_of, digest_of, decide, parked, or_parked, complete,
  verdict_for, has_command_word, ids_of, is_single, parse_commands,
}
use agentic_dev_kit.Triage.Approval.Taken.{
  parsed_inv, unless_inv, LineGood, LinesGood, reply_all, reply_complete,
}

found_id :
    (ds : List Decision) (id : String) (d : Decision)
    → decision_of ds id ≡ some d
    → d.candidate_id ≡ id
unfolding decision_of
found_id [] id d e = cc e
found_id (x ∷ xs) id d e = elim (Bool-cases (x.candidate_id == id)) [
  | inl y ↦
      let same : some x ≡ some d = ap (λ b. if b then some x else decision_of xs id) (sym y) ∙ e in
      cc (same, (eq_iff x.candidate_id id).0 y)
  | inr n ↦ found_id xs id d (ap (λ b. if b then some x else decision_of xs id) (sym n) ∙ e)
]

complete_ids :
    (ds : List Decision) (qs : List Proposal)
    → map (λ d. d.candidate_id) (complete ds qs) ≡ map (λ q. q.id) qs
unfolding complete
complete_ids ds [] = refl
complete_ids ds (q ∷ qs) =
    ap (λ i. i ∷ map (λ d. d.candidate_id) (complete ds qs)) (go (decision_of ds q.id) refl)
    ∙ ap (λ xs. q.id ∷ xs) (complete_ids ds qs)
  where
    go : (o : Option Decision) → o ≡ decision_of ds q.id → (or_parked o q).candidate_id ≡ q.id
    go none e = refl
    go (some d) e = found_id ds q.id d (sym e)

-- An accepted reply decides on every displayed candidate, each once and in the order shown, whatever
-- the order of its commands.
pub parse_commands_ids :
    (is_word : Char → Bool) (text : String) (ps : List Proposal) (ds : List Decision)
    → parse_commands is_word text ps ≡ parsed ds
    → map (λ d. d.candidate_id) ds ≡ map (λ q. q.id) ps
parse_commands_ids is_word text ps ds h =
    let (es, e) = reply_complete is_word text ps ds h in
    ap (map (λ d. d.candidate_id)) (sym e) ∙ complete_ids es ps

-- each id is shown once
unfoldable pub ids_once : List Proposal → Bool
ids_once [] = true
ids_once (p ∷ ps) = not (is_shown p.id ps) && ids_once ps

-- the digest of a decision is that of its candidate
unfoldable pub has_own_digest : List Proposal → Decision → Bool
has_own_digest ps d = d.proposal_digest == digest_of ps d.candidate_id

-- what a reply's `approve` commands name
unfoldable pub is_approved : Option (String × String) → String → Bool
is_approved none id = false
is_approved (some c) id = c.0 == "approve" && (c.1 == "all" || elem id (split_on space c.1))

is_file : Verdict → Bool
is_file file = true
is_file _ = false

-- a candidate is filed only if some line approves it
unfoldable pub is_backed : List String → Decision → Bool
unfolding is_approved is_file
is_backed lines d =
    not (is_file d.verdict) || any (λ l. is_approved (command_of l) d.candidate_id) lines

all-true {ℓ} :
    {A : Type ℓ} (p : A → Bool) → ((a : A) → p a ≡ true) → (xs : List A) → all p xs ≡ true
unfolding all
all-true p h [] = refl
all-true p h (x ∷ xs) = rw (h x, all-true p h xs) refl

always_good :
    (p : Decision → Bool) (ps : List Proposal) (is_word : Char → Bool) (alone : Bool)
    → ((v : Verdict) (id : String) → p (decide ps v id) ≡ true)
    → (ls : List String) → LinesGood p ps is_word alone ls
unfolding LinesGood
always_good p ps is_word alone h [] = tt
always_good p ps is_word alone h (l ∷ ls) = (
  λ c ids e m.
      all-true (λ id. p (decide ps (verdict_for c.0) id)) (λ id. h (verdict_for c.0) id) ids,
  always_good p ps is_word alone h ls,
)

tail_digests :
    (p : Proposal) (ps qs : List Proposal)
    → is_shown p.id qs ≡ false
    → all (λ q. q.digest == digest_of ps q.id) qs ≡ true
    → all (λ q. q.digest == digest_of (p ∷ ps) q.id) qs ≡ true
unfolding all any is_shown digest_of
tail_digests p ps [] s h = refl
tail_digests p ps (q ∷ qs) s h =
    let rest : is_shown p.id qs ≡ false → all (λ r. r.digest == digest_of (p ∷ ps) r.id) qs ≡ true =
      λ e. tail_digests p ps qs e (&&-right (q.digest == digest_of ps q.id) _ h) in
    let first : (q.digest == digest_of ps q.id) ≡ true = &&-left _ _ h in
    ground (arith, eq_iff q.id p.id, eq_iff p.id q.id, rest, first)

-- the digest of a shown candidate is read back by its id
own_digests :
    (ps : List Proposal) → ids_once ps ≡ true → all (λ q. q.digest == digest_of ps q.id) ps ≡ true
unfolding ids_once all digest_of
own_digests [] h = refl
own_digests (p ∷ ps) h =
    let alone : is_shown p.id ps ≡ false = ground (arith, &&-left (not (is_shown p.id ps)) _ h) in
    let rest = tail_digests p ps ps alone (own_digests ps (&&-right _ (ids_once ps) h)) in
    rw (eq_refl p.id, eq_refl p.digest) rest

-- Every decision of an accepted reply carries the digest of its own candidate's payload, if each
-- candidate is shown once.
parse_commands_digests :
    (is_word : Char → Bool) (text : String) (ps : List Proposal) (ds : List Decision)
    → ids_once ps ≡ true
    → parse_commands is_word text ps ≡ parsed ds
    → all (has_own_digest ps) ds ≡ true
unfolding has_own_digest decide
parse_commands_digests is_word text ps ds once h =
    reply_all (has_own_digest ps) is_word text ps ds (λ id body. eq_refl (digest_of ps id))
      (always_good (has_own_digest ps) ps is_word (is_single (split_on newline text))
        (λ v id. eq_refl (digest_of ps id)) (split_on newline text))
      (own_digests ps once) h

or_true : (b : Bool) → (b || true) ≡ true
or_true true = refl
or_true false = refl

all_within :
    (q : String → Bool) (ys : List String)
    → ((y : String) → elem y ys ≡ true → q y ≡ true)
    → all q ys ≡ true
unfolding all elem
all_within q [] h = refl
all_within q (y ∷ ys) h =
    let rest : all q ys ≡ true =
      all_within q ys (λ z e. h z (ap (λ b. (y == z) || b) e ∙ or_true (y == z))) in
    rw (h y (ap (λ b. b || elem y ys) (eq_refl y)), rest) refl

-- a command names the ids it lists, or all
command_names :
    (is_word : Char → Bool) (ps : List Proposal) (alone : Bool) (verb text : String)
    (ids : List String)
    → ids_of is_word ps alone verb text ≡ parsed ids
    → (id : String) → elem id ids ≡ true
    → (text == "all" || elem id (split_on space text)) ≡ true
unfolding ids_of
command_names is_word ps alone verb text ids h id e =
    let (_, h1) =
      unless_inv (contains text ",") comma (past_comma (has_command_word is_word text)) ids h in
    let (_, h2) =
      unless_inv (has_command_word is_word text) mixed (past_words (text == "all")) ids h1 in
    elim (Bool-cases (text == "all")) [
      | inl y ↦ ap (λ b. b || elem id (split_on space text)) y
      | inr n ↦
          let (_, h3) =
            unless_inv (any (λ i. i == "") (split_on space text)) malformed_ids
              (parsed (split_on space text)) ids (ap past_words (sym n) ∙ h2) in
          ap (λ b. b || elem id (split_on space text)) n
          ∙ (ap (elem id) (parsed_inv (split_on space text) ids h3) ∙ e)
    ]
  where
    past_words : Bool → Parsed (List String)
    past_words b =
        if b
        then (if not (verb == "approve")
            then held only_approve_all
            else if alone
            then parsed (map (λ p. p.id) ps)
            else held all_not_alone)
        else if any (λ i. i == "") (split_on space text)
        then held malformed_ids
        else parsed (split_on space text)

    past_comma : Bool → Parsed (List String)
    past_comma b = if b then held mixed else past_words (text == "all")

-- what a line files, it approves
line_backed :
    (lines : List String) (ps : List Proposal) (is_word : Char → Bool) (alone : Bool) (l : String)
    → ((id : String)
        → is_approved (command_of l) id ≡ true
        → any (λ k. is_approved (command_of k) id) lines ≡ true)
    → LineGood (is_backed lines) ps is_word alone l
unfolding is_backed decide is_file is_approved
line_backed lines ps is_word alone l within c ids e m =
    all_within (λ id. is_backed lines (decide ps (verdict_for c.0) id)) ids
      (λ id i.
        let names = command_names is_word ps alone c.0 c.1 ids m id i in
        elim (Bool-cases (c.0 == "approve")) [
          | inl y ↦
              let named : is_approved (command_of l) id ≡ true =
                ap (λ o. is_approved o id) e
                ∙ (ap (λ b. b && (c.1 == "all" || elem id (split_on space c.1))) y ∙ names) in
              rw (within id named) (or_true (not (is_file (verdict_for c.0))))
          | inr n ↦ ground (arith, n)
        ])

lines_backed :
    (lines : List String) (ps : List Proposal) (is_word : Char → Bool) (alone : Bool)
    (ls : List String)
    → ((id : String)
        → any (λ k. is_approved (command_of k) id) ls ≡ true
        → any (λ k. is_approved (command_of k) id) lines ≡ true)
    → LinesGood (is_backed lines) ps is_word alone ls
unfolding LinesGood any
lines_backed lines ps is_word alone [] within = tt
lines_backed lines ps is_word alone (l ∷ ls) within = (
  line_backed lines ps is_word alone l
      (λ id e. within id (ap (λ b. b || any (λ k. is_approved (command_of k) id) ls) e)),
  lines_backed lines ps is_word alone ls (λ id e.
      within id
        (ap (λ b. is_approved (command_of l) id || b) e ∙ or_true (is_approved (command_of l) id))),
)

-- An accepted reply files a candidate only if one of its lines is an `approve` command that names the
-- candidate, or names all.
pub parse_commands_files :
    (is_word : Char → Bool) (text : String) (ps : List Proposal) (ds : List Decision)
    → parse_commands is_word text ps ≡ parsed ds
    → all (is_backed (split_on newline text)) ds ≡ true
unfolding is_backed is_file decide
parse_commands_files is_word text ps ds h =
    let lines = split_on newline text in
    reply_all (is_backed lines) is_word text ps ds (λ id body. refl)
      (lines_backed lines ps is_word (is_single lines) lines (λ id e. e))
      (all-true (λ q. is_backed lines (parked q)) (λ q. refl) ps) h
