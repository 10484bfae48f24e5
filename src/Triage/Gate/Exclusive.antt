-- ===== src/Triage/Gate/Exclusive.antt =====
-- At most one run owns the gate.
use mathlib.Core.Bool.{true≢false}
use agentic_dev_kit.Base.{
  String, ◌≡◌, refl, sym, ap, ◌∙◌, inl, inr, Bool, true, false, Option, none, some, ◌==◌, eq_iff,
  eq_refl, arith, Bool-cases,
}
use agentic_dev_kit.Triage.Gate.{
  Directory, Phase, started, looked, prepared, published, holding, verified, approved, released,
  refused, lost, dead, publish, turn, World, act, die, clean, quarantine, take_gate, Step, acts,
  dies, cleans, quarantines, takes, Reach, here, next, fresh,
}

-- a run that published its record and has not removed it
unfoldable pub owns : Phase → Bool
owns published = true
owns holding = true
owns verified = true
owns approved = true
owns p = false

-- a run whose staged file is gone and whose gate stands
unfoldable pub settled : Phase → Bool
settled holding = true
settled verified = true
settled approved = true
settled p = false

-- the gate belongs to the run that owns it, which is the only one
pub record IsExclusive (w : World) : Type 0 where
  pub owned : (t : String) → owns (w.phase t) ≡ true → (w.dir).gate ≡ some t
  pub unstaged : (t : String) → settled (w.phase t) ≡ true → (w.dir).staged t ≡ false
  pub ended : (t : String) → (w.dir).kept t ≡ true → w.phase t ≡ dead

-- what a turn leaves, given that the run's own gate stands where it owns it
module _ (t : String) (d : Directory) where
  turn_owned :
      (p : Phase)
      → (owns p ≡ true → d.gate ≡ some t)
      → owns (turn t d p).1 ≡ true
      → (turn t d p).0.gate ≡ some t
  unfolding turn owns
  turn_owned started h o = ground arith
  turn_owned looked h o = cc
  turn_owned prepared h o = publish_owned d.gate o
    where
      publish_owned :
          (g : Option String) → owns (publish t d g).1 ≡ true → (publish t d g).0.gate ≡ some t
      publish_owned none o = refl
      publish_owned (some u) o = cc
  turn_owned published h o = h refl
  turn_owned holding h o = h refl
  turn_owned verified h o = h refl
  turn_owned approved h o = cc
  turn_owned released h o = cc
  turn_owned refused h o = cc
  turn_owned lost h o = cc
  turn_owned dead h o = cc

  pub turn_other :
      (u : String) (p : Phase)
      → (t == u) ≡ false
      → (owns p ≡ true → d.gate ≡ some t)
      → d.gate ≡ some u
      → (turn t d p).0.gate ≡ some u
  unfolding turn owns publish
  turn_other u started n h g = g
  turn_other u looked n h g = g
  turn_other u prepared n h g = rw g refl
  turn_other u published n h g = g
  turn_other u holding n h g = g
  turn_other u verified n h g = g
  turn_other u approved n h g =
      let both : some t ≡ some u = sym (h refl) ∙ g in
      let same : t ≡ u = cc both in absurd (true≢false (sym ((eq_iff t u).1 same) ∙ n))
  turn_other u released n h g = g
  turn_other u refused n h g = g
  turn_other u lost n h g = g
  turn_other u dead n h g = g

  turn_unstaged :
      (p : Phase)
      → (settled p ≡ true → d.staged t ≡ false)
      → settled (turn t d p).1 ≡ true
      → (turn t d p).0.staged t ≡ false
  unfolding turn settled
  turn_unstaged started h o = ground arith
  turn_unstaged looked h o = cc
  turn_unstaged prepared h o = publish_settled d.gate o
    where
      publish_settled :
          (g : Option String)
          → settled (publish t d g).1 ≡ true
          → (publish t d g).0.staged t ≡ false
      publish_settled none o = cc
      publish_settled (some u) o = cc
  turn_unstaged published h o = rw (eq_refl t) refl
  turn_unstaged holding h o = h refl
  turn_unstaged verified h o = h refl
  turn_unstaged approved h o = cc
  turn_unstaged released h o = cc
  turn_unstaged refused h o = cc
  turn_unstaged lost h o = cc
  turn_unstaged dead h o = cc

  turn_staged_other :
      (u : String) (p : Phase) → (t == u) ≡ false → (turn t d p).0.staged u ≡ d.staged u
  unfolding turn publish
  turn_staged_other u started n = refl
  turn_staged_other u looked n = rw n refl
  turn_staged_other u prepared n = ground (arith, n)
  turn_staged_other u published n = rw n refl
  turn_staged_other u p n = refl

  pub turn_kept : (p : Phase) → (turn t d p).0.kept ≡ d.kept
  unfolding turn publish
  turn_kept prepared = publish_kept d.gate
    where
      publish_kept : (g : Option String) → (publish t d g).0.kept ≡ d.kept
      publish_kept none = refl
      publish_kept (some u) = refl
  turn_kept p = refl

pub dead_turn :
    (t : String) (d : Directory) (p : Phase)
    → p ≡ dead
    → ((turn t d p).1 ≡ dead) × ((turn t d p).0.gate ≡ d.gate)
unfolding turn
dead_turn t d p e = rw e (refl, refl)

-- a run that ended stays ended
pub act_dead : (t u : String) (w : World) → w.phase u ≡ dead → (act t w).phase u ≡ dead
unfolding act
act_dead t u w gone = elim (Bool-cases (t == u)) [
  | inl y ↦
      let same : t ≡ u = (eq_iff t u).0 y in
      rw y ((dead_turn t w.dir (w.phase t) (ap w.phase same ∙ gone)).0)
  | inr m ↦ rw m gone
]

act-IsExclusive : (t : String) (w : World) → IsExclusive w → IsExclusive (act t w)
unfolding act
act-IsExclusive t w v = record {
  owned = λ u h. elim (Bool-cases (t == u)) [
    | inl y ↦
        let same : t ≡ u = (eq_iff t u).0 y in
        let h' = rw y at h in turn_owned t w.dir (w.phase t) (v.owned t) h' ∙ ap some same
    | inr n ↦ let h' = rw n at h in turn_other t w.dir u (w.phase t) n (v.owned t) (v.owned u h')
  ];
  unstaged = λ u h. elim (Bool-cases (t == u)) [
    | inl y ↦
        let same : t ≡ u = (eq_iff t u).0 y in
        let h' = rw y at h in rw (← same) (turn_unstaged t w.dir (w.phase t) (v.unstaged t) h')
    | inr n ↦ let h' = rw n at h in turn_staged_other t w.dir u (w.phase t) n ∙ v.unstaged u h'
  ];
  ended =
      λ u h. act_dead t u w (v.ended u (sym (ap (λ k. k u) (turn_kept t w.dir (w.phase t))) ∙ h));
}

die-IsExclusive : (t : String) (w : World) → IsExclusive w → IsExclusive (die t w)
unfolding die owns settled
die-IsExclusive t w v = record {
  owned = λ u h. ground (arith, v.owned u);
  unstaged = λ u h. ground (arith, v.unstaged u);
  ended = λ u h. ground (arith, v.ended u);
}

clean-IsExclusive :
    (t : String) (w : World) → w.phase t ≡ dead → IsExclusive w → IsExclusive (clean t w)
unfolding clean
clean-IsExclusive t w gone v = record {
  owned = λ u h. v.owned u h;
  unstaged = λ u h. ground (arith, v.unstaged u);
  ended = λ u h. v.ended u h;
}

quarantine-IsExclusive :
    (t : String) (w : World) → w.phase t ≡ dead → IsExclusive w → IsExclusive (quarantine t w)
unfolding quarantine
quarantine-IsExclusive t w gone v = record {
  owned = λ u h. v.owned u h;
  unstaged = λ u h. v.unstaged u h;
  ended = λ u h. elim (Bool-cases (t == u)) [
    | inl y ↦ ap w.phase (sym ((eq_iff t u).0 y)) ∙ gone
    | inr m ↦ let h' = rw m at h in v.ended u h'
  ];
}

-- a run that owns the gate is not the ended one
pub dead_owner :
    (t u : String) (w : World)
    → w.phase t ≡ dead
    → (w.dir).gate ≡ some t
    → IsExclusive w
    → owns (w.phase u) ≡ true
    → ⊥
unfolding owns
dead_owner t u w gone g v h =
    let both : some t ≡ some u = sym g ∙ v.owned u h in
    let same : t ≡ u = cc both in
    let off : owns (w.phase u) ≡ false = ap owns (ap w.phase (sym same) ∙ gone) in
    absurd (true≢false (sym h ∙ off))

take_gate-IsExclusive :
    (t : String) (w : World)
    → w.phase t ≡ dead
    → (w.dir).gate ≡ some t
    → IsExclusive w
    → IsExclusive (take_gate w)
unfolding take_gate
take_gate-IsExclusive t w gone g v = record {
  owned = λ u h. absurd (dead_owner t u w gone g v h);
  unstaged = λ u h. v.unstaged u h;
  ended = λ u h. v.ended u h;
}

Step-IsExclusive : {w u : World} → Step w u → IsExclusive w → IsExclusive u
Step-IsExclusive {w} (acts t) v = act-IsExclusive t w v
Step-IsExclusive {w} (dies t) v = die-IsExclusive t w v
Step-IsExclusive {w} (cleans t gone) v = clean-IsExclusive t w gone v
Step-IsExclusive {w} (quarantines t gone g s) v = quarantine-IsExclusive t w gone v
Step-IsExclusive {w} (takes t gone g k) v = take_gate-IsExclusive t w gone g v

fresh-IsExclusive : IsExclusive fresh
unfolding owns settled
fresh-IsExclusive = record { owned = λ t h. cc; unstaged = λ t h. cc; ended = λ t h. cc }

pub Reach-IsExclusive : {w : World} → Reach fresh w → IsExclusive w
Reach-IsExclusive here = fresh-IsExclusive
Reach-IsExclusive (next r st) = Step-IsExclusive st (Reach-IsExclusive r)

pub Reach-on : {w u v : World} → Reach w u → Reach u v → Reach w v
Reach-on r here = r
Reach-on r (next s st) = next (Reach-on r s) st

same_owner :
    {w : World} (t u : String)
    → Reach fresh w
    → owns (w.phase t) ≡ true
    → owns (w.phase u) ≡ true
    → t ≡ u
same_owner t u r h k =
    let v = Reach-IsExclusive r in let both = sym (v.owned t h) ∙ v.owned u k in cc both

-- Whatever turns the runs take in whatever order, wherever some of them end and whichever staged
-- files of ended runs are cleaned up: while a run owns the gate, no other run does.
pub one_owner :
    {w : World} (t u : String)
    → Reach fresh w
    → (t == u) ≡ false
    → owns (w.phase t) ≡ true
    → owns (w.phase u) ≡ false
one_owner {w} t u r n h = elim (Bool-cases (owns (w.phase u))) [
  | inl k ↦ let same = (eq_iff t u).1 (same_owner t u r h k) in absurd (true≢false (sym same ∙ n))
  | inr k ↦ k
]
