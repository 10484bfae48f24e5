-- ===== src/Triage/Gate/Lease.antt =====
-- A run keeps its gate until it releases it, and a run that ended until it is recovered.
use mathlib.Core.Bool.{true≢false}
use agentic_dev_kit.Base.{
  String, ◌≡◌, refl, sym, ap, ◌∙◌, inl, inr, true, false, Option, none, some, ◌==◌, eq_refl,
  Bool-cases,
}
use agentic_dev_kit.Triage.Gate.{
  Directory, Phase, started, looked, prepared, published, holding, verified, approved, released,
  refused, lost, dead, is_own, is_settled, publish, turn, World, act, die, clean, quarantine,
  take_gate, Step, acts, dies, cleans, quarantines, takes, Reach, here, next, fresh,
}
use agentic_dev_kit.Triage.Gate.Exclusive.{owns, settled, IsExclusive, Reach-IsExclusive}

own_gate : (t : String) (d : Directory) → d.gate ≡ some t → is_own d.gate t ≡ true
unfolding is_own
own_gate t d e = ap (λ g. is_own g t) e ∙ eq_refl t

holding-verified : (t : String) (d : Directory) → d.gate ≡ some t → (turn t d holding).1 ≡ verified
unfolding turn
holding-verified t d e = let own = own_gate t d e in rw own refl

verified-approved :
    (t : String) (d : Directory)
    → d.gate ≡ some t
    → d.staged t ≡ false
    → d.kept t ≡ false
    → (turn t d verified).1 ≡ approved
unfolding turn is_settled
verified-approved t d e s k =
    let own = own_gate t d e in
    let single : is_settled d d.gate ≡ true = ap (is_settled d) e ∙ rw (s, k) refl in
    rw (own, single) refl

-- a turn of a run that owns its gate finds it
turn_not_lost :
    (t : String) (d : Directory) (p : Phase)
    → (owns p ≡ true → d.gate ≡ some t)
    → (settled p ≡ true → d.staged t ≡ false)
    → (settled p ≡ true → d.kept t ≡ false)
    → (p ≡ lost → ⊥)
    → (turn t d p).1 ≡ lost
    → ⊥
unfolding turn owns settled is_own is_settled
turn_not_lost t d started h k q n e = elim (Bool-cases (is_settled d d.gate)) [
  | inl y ↦ let e' = rw y at e in cc e'
  | inr y ↦ let e' = rw y at e in cc e'
]
turn_not_lost t d looked h k q n e = cc
turn_not_lost t d prepared h k q n e = publish_not_lost d.gate e
  where
    publish_not_lost : (g : Option String) → (publish t d g).1 ≡ lost → ⊥
    publish_not_lost none e = cc
    publish_not_lost (some u) e = cc
turn_not_lost t d published h k q n e = cc
turn_not_lost t d holding h k q n e = let e' = sym (holding-verified t d (h refl)) ∙ e in cc e'
turn_not_lost t d verified h k q n e =
    let e' = sym (verified-approved t d (h refl) (k refl) (q refl)) ∙ e in cc e'
turn_not_lost t d approved h k q n e = cc
turn_not_lost t d released h k q n e = cc
turn_not_lost t d refused h k q n e = cc
turn_not_lost t d lost h k q n e = n refl
turn_not_lost t d dead h k q n e = cc

-- recovery keeps no file of a run that goes on
unkept :
    {w : World} → IsExclusive w → (t : String) → settled (w.phase t) ≡ true → (w.dir).kept t ≡ false
unfolding settled
unkept {w} v t h = elim (Bool-cases ((w.dir).kept t)) [
  | inl y ↦ let e = ap settled (v.ended t y) in absurd (true≢false (sym h ∙ e))
  | inr n ↦ n
]

Step-not_lost :
    {w u : World}
    → IsExclusive w
    → ((t : String) → w.phase t ≡ lost → ⊥)
    → Step w u
    → (t : String) → u.phase t ≡ lost
    → ⊥
unfolding act die clean quarantine take_gate
Step-not_lost {w} v n (acts t) u e = elim (Bool-cases (t == u)) [
  | inl y ↦
      let e' = rw y at e in
      turn_not_lost t w.dir (w.phase t) (v.owned t) (v.unstaged t) (unkept v t) (n t) e'
  | inr m ↦ let e' = rw m at e in n u e'
]
Step-not_lost {w} v n (dies t) u e = elim (Bool-cases (t == u)) [
  | inl y ↦ let e' = rw y at e in cc e'
  | inr m ↦ let e' = rw m at e in n u e'
]
Step-not_lost {w} v n (cleans t gone) u e = n u e
Step-not_lost {w} v n (quarantines t gone g s) u e = n u e
Step-not_lost {w} v n (takes t gone g k) u e = n u e

-- A lease is never lost between its publication and its release: in no reachable state has a run
-- stopped because it found its gate gone, replaced or with a second link.
pub never_lost : {w : World} (t : String) → Reach fresh w → ¬ (w.phase t ≡ lost)
never_lost t here e = cc
never_lost t (next r st) e = Step-not_lost (Reach-IsExclusive r) (λ u h. never_lost u r h) st t e
