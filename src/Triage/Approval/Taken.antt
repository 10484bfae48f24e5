-- ===== src/Triage/Approval/Taken.antt =====
-- A property that every decision of a reply has as it is added holds of all that the reply decides.
use Prim.Native.Char.{Char}
use agentic_dev_kit.Base.{
  String, ◌≡◌, refl, ap, sym, ◌∙◌, inl, inr, Bool, true, false, ◌&&◌, ◌||◌, not, Option, none, some,
  List, [], ◌∷◌, ◌++◌, if◌then◌else◌, any, all, strip, ◌==◌, arith, Bool-cases, &&-left, &&-right,
}
use agentic_dev_kit.Triage.Commands.{split_on, newline, command_of, modify_of}
use agentic_dev_kit.Triage.Approval.{
  Proposal, Verdict, modify, Decision, ApprovalError, unknown_modify, modify_not_alone, not_exact,
  Parsed, parsed, held, is_shown, names_this_batch, decision_of, decide, parked, or_parked,
  complete, verdict_for, take_ids, ids_of, take_named, take_command, take_line, and_then,
  take_lines, take_modify, is_single, take_text, completed, parse_commands,
}

all-snoc {ℓ} :
    {A : Type ℓ} (p : A → Bool) (xs : List A) (x : A)
    → all p xs ≡ true
    → p x ≡ true
    → all p (xs ++ x ∷ []) ≡ true
unfolding all
all-snoc p [] x h k = ap (λ b. b && true) k
all-snoc p (y ∷ xs) x h k =
    let rest : all p (xs ++ x ∷ []) ≡ true = all-snoc p xs x (&&-right (p y) (all p xs) h) k in
    ground (arith, rest, &&-left (p y) (all p xs) h)

pub parsed_inv {ℓ} : {A : Type ℓ} (a b : A) → parsed a ≡ parsed b → a ≡ b
parsed_inv a b h = cc h

-- the test that a result passed
pub unless_inv {ℓ} :
    {A : Type ℓ} (b : Bool) (e : ApprovalError) (m : Parsed A) (a : A)
    → (if b then held e else m) ≡ parsed a
    → (b ≡ false) × (m ≡ parsed a)
unless_inv true e m a h = cc h
unless_inv false e m a h = (refl, h)

-- a property of decisions that every added one has
module _ (p : Decision → Bool) (ps : List Proposal) where
  take_ids-all :
      (v : Verdict) (ds : List Decision) (ids : List String) (es : List Decision)
      → all p ds ≡ true
      → all (λ id. p (decide ps v id)) ids ≡ true
      → take_ids ps v ds ids ≡ parsed es
      → all p es ≡ true
  unfolding take_ids all
  take_ids-all v ds [] es h k t = ap (all p) (sym (parsed_inv _ _ t)) ∙ h
  take_ids-all v ds (id ∷ ids) es h k t =
      let (_, next) = unless_inv _ _ _ _ t in
      take_ids-all v (ds ++ decide ps v id ∷ []) ids es
        (all-snoc p ds (decide ps v id) h (&&-left (p (decide ps v id)) _ k))
        (&&-right (p (decide ps v id)) _ k) next

  -- what one line adds has the property
  abbrev pub LineGood : (Char → Bool) → Bool → String → Type 0
  LineGood is_word alone line =
      (c : String × String) (ids : List String)
      → command_of line ≡ some c
      → ids_of is_word ps alone c.0 c.1 ≡ parsed ids
      → all (λ id. p (decide ps (verdict_for c.0) id)) ids ≡ true

  named_all :
      (v : String) (ds : List Decision) (m : Parsed (List String)) (es : List Decision)
      → all p ds ≡ true
      → ((ids : List String)
          → m ≡ parsed ids
          → all (λ id. p (decide ps (verdict_for v) id)) ids ≡ true)
      → (w : Char → Bool) → take_named w ps v ds m ≡ parsed es
      → all p es ≡ true
  unfolding take_named
  named_all v ds (held e) es h good w t = cc t
  named_all v ds (parsed ids) es h good w t =
      take_ids-all (verdict_for v) ds ids es h (good ids refl) t

  module _ (is_word : Char → Bool) (alone : Bool) where
    command_all :
        (ds : List Decision) (line : String) (o : Option (String × String)) (es : List Decision)
        → all p ds ≡ true
        → LineGood is_word alone line
        → command_of line ≡ o
        → take_command is_word ps alone ds o ≡ parsed es
        → all p es ≡ true
    unfolding take_command
    command_all ds line none es h good e t = cc t
    command_all ds line (some c) es h good e t =
        named_all c.0 ds (ids_of is_word ps alone c.0 c.1) es h (λ ids. good c ids e) is_word t

    take_line-all :
        (ds : List Decision) (line : String) (es : List Decision)
        → all p ds ≡ true
        → LineGood is_word alone line
        → take_line is_word ps alone ds line ≡ parsed es
        → all p es ≡ true
    unfolding take_line
    take_line-all ds line es h good t =
        let (_, next) = unless_inv _ _ _ _ t in
        command_all ds line (command_of line) es h good refl next

    unfoldable pub LinesGood : List String → Type 0
    LinesGood [] = Unit
    LinesGood (l ∷ ls) = LineGood is_word alone l × LinesGood ls

    after_line :
        (ls : List String) (m : Parsed (List Decision)) (es : List Decision)
        → ((ds : List Decision) → m ≡ parsed ds → all p ds ≡ true)
        → ((ds : List Decision)
            → all p ds ≡ true
            → take_lines is_word ps alone ds ls ≡ parsed es
            → all p es ≡ true)
        → and_then is_word (λ ds. take_lines is_word ps alone ds ls) m ≡ parsed es
        → all p es ≡ true
    unfolding and_then
    after_line ls (held e) es first next t = cc t
    after_line ls (parsed ds) es first next t = next ds (first ds refl) t

    take_lines-all :
        (ls : List String) (ds : List Decision) (es : List Decision)
        → LinesGood ls
        → all p ds ≡ true
        → take_lines is_word ps alone ds ls ≡ parsed es
        → all p es ≡ true
    unfolding take_lines LinesGood
    take_lines-all [] ds es good h t = ap (all p) (sym (parsed_inv _ _ t)) ∙ h
    take_lines-all (l ∷ ls) ds es good h t =
        after_line ls (take_line is_word ps alone ds l) es
          (λ xs e. take_line-all ds l xs h good.0 e) (λ xs a b. take_lines-all ls xs es good.1 a b)
          t

    modify_all :
        (id body : String) (es : List Decision)
        → p (decide ps (modify body) id) ≡ true
        → take_modify is_word ps id body ≡ parsed es
        → all p es ≡ true
    unfolding take_modify all
    modify_all id body es h t =
        let (_, t1) =
          unless_inv (not (is_shown id ps)) unknown_modify
            (if any (λ line. names_this_batch line ps) (split_on newline body)
              then held modify_not_alone
              else parsed (decide ps (modify body) id ∷ []))
            es t in
        let (_, t2) =
          unless_inv (any (λ line. names_this_batch line ps) (split_on newline body))
            modify_not_alone (parsed (decide ps (modify body) id ∷ [])) es t1 in
        ap (all p) (sym (parsed_inv (decide ps (modify body) id ∷ []) es t2))
        ∙ ap (λ b. b && true) h

  text_all :
      (is_word : Char → Bool) (text : String) (m : Option (String × String)) (es : List Decision)
      → ((id body : String) → p (decide ps (modify body) id) ≡ true)
      → LinesGood is_word (is_single (split_on newline text)) (split_on newline text)
      → take_text is_word ps text m ≡ parsed es
      → all p es ≡ true
  unfolding take_text all
  text_all is_word text (some m) es modifies good t =
      modify_all is_word (is_single (split_on newline text)) m.0 m.1 es (modifies m.0 m.1) t
  text_all is_word text none es modifies good t =
      take_lines-all is_word (is_single (split_on newline text)) (split_on newline text) [] es good
        refl t

  found_all :
      (ds : List Decision) (id : String) (d : Decision)
      → all p ds ≡ true
      → decision_of ds id ≡ some d
      → p d ≡ true
  unfolding decision_of all
  found_all [] id d h e = cc e
  found_all (x ∷ xs) id d h e = elim (Bool-cases (x.candidate_id == id)) [
    | inl y ↦
        let same : some x ≡ some d =
          ap (λ b. if b then some x else decision_of xs id) (sym y) ∙ e in
        cc (same, &&-left (p x) (all p xs) h)
    | inr n ↦
        found_all xs id d (&&-right (p x) (all p xs) h)
          (ap (λ b. if b then some x else decision_of xs id) (sym n) ∙ e)
  ]

  complete-all :
      (ds : List Decision) (qs : List Proposal)
      → all p ds ≡ true
      → all (λ q. p (parked q)) qs ≡ true
      → all p (complete ds qs) ≡ true
  unfolding complete all
  complete-all ds [] h k = refl
  complete-all ds (q ∷ qs) h k =
      go (decision_of ds q.id) refl (complete-all ds qs h (&&-right _ _ k)) (&&-left _ _ k)
    where
      go :
          (o : Option Decision)
          → o ≡ decision_of ds q.id
          → all p (complete ds qs) ≡ true
          → p (parked q) ≡ true
          → (p (or_parked o q) && all p (complete ds qs)) ≡ true
      go none e r l = rw (l, r) refl
      go (some d) e r l = rw (found_all ds q.id d h (sym e), r) refl

-- the same of a whole reply
pub reply_all :
    (p : Decision → Bool) (is_word : Char → Bool) (text : String) (ps : List Proposal)
    (es : List Decision)
    → ((id body : String) → p (decide ps (modify body) id) ≡ true)
    → LinesGood p ps is_word (is_single (split_on newline text)) (split_on newline text)
    → all (λ q. p (parked q)) ps ≡ true
    → parse_commands is_word text ps ≡ parsed es
    → all p es ≡ true
unfolding parse_commands completed all
reply_all p is_word text ps es modifies good parks t =
    let (_, t1) =
      unless_inv (not (text == strip text) || text == "") not_exact
        (not_cancelled (text == "cancel")) es t in
    elim (Bool-cases (text == "cancel")) [
      | inl y ↦ cancelled (ap not_cancelled (sym y) ∙ t1)
      | inr n ↦
          finished (take_text is_word ps text (modify_of text)) refl (ap not_cancelled (sym n) ∙ t1)
    ]
  where
    not_cancelled : Bool → Parsed (List Decision)
    not_cancelled b =
        if b
        then parsed (complete [] ps)
        else completed is_word ps (take_text is_word ps text (modify_of text))

    cancelled : parsed (complete [] ps) ≡ parsed es → all p es ≡ true
    cancelled e = ap (all p) (sym (parsed_inv _ _ e)) ∙ complete-all p ps [] ps refl parks

    finished :
        (m : Parsed (List Decision))
        → take_text is_word ps text (modify_of text) ≡ m
        → completed is_word ps m ≡ parsed es
        → all p es ≡ true
    finished (held e) o h = cc h
    finished (parsed ds) o h =
        ap (all p) (sym (parsed_inv _ _ h))
        ∙ complete-all p ps ds ps (text_all p ps is_word text (modify_of text) ds modifies good o)
            parks

-- an accepted reply is some decisions, completed
pub reply_complete :
    (is_word : Char → Bool) (text : String) (ps : List Proposal) (es : List Decision)
    → parse_commands is_word text ps ≡ parsed es
    → (ds : List Decision) × (complete ds ps ≡ es)
unfolding parse_commands completed
reply_complete is_word text ps es t =
    let (_, t1) =
      unless_inv (not (text == strip text) || text == "") not_exact
        (not_cancelled (text == "cancel")) es t in
    elim (Bool-cases (text == "cancel")) [
      | inl y ↦ ([], parsed_inv (complete [] ps) es (ap not_cancelled (sym y) ∙ t1))
      | inr n ↦
          finished (take_text is_word ps text (modify_of text)) (ap not_cancelled (sym n) ∙ t1)
    ]
  where
    not_cancelled : Bool → Parsed (List Decision)
    not_cancelled b =
        if b
        then parsed (complete [] ps)
        else completed is_word ps (take_text is_word ps text (modify_of text))

    finished :
        (m : Parsed (List Decision))
        → completed is_word ps m ≡ parsed es
        → (ds : List Decision) × (complete ds ps ≡ es)
    finished (held e) h = cc h
    finished (parsed ds) h = (ds, parsed_inv (complete ds ps) es h)
