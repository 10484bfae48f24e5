-- ===== src/Triage/Examples/Runs.antt =====
-- The theorems on the gate, at two runs of which one holds it and the other is refused.
use agentic_dev_kit.Base.{◌≡◌, refl, true, false}
use agentic_dev_kit.Triage.Gate.{
  refused, lost, turn, World, act, die, clean, quarantine, take_gate, Reach, here, next, acts,
  fresh,
}
use agentic_dev_kit.Triage.Gate.Exclusive.{owns, one_owner}
use agentic_dev_kit.Triage.Gate.Lease.{never_lost}

-- both look, both stage a file, and `b` publishes first
abbrev contended : World
contended = act "a" (act "b" (act "b" (act "a" (act "b" (act "a" fresh)))))

contended_reached : Reach fresh contended
contended_reached =
    next
      (next (next (next (next (next here (acts "a")) (acts "b")) (acts "a")) (acts "b")) (acts "b"))
      (acts "a")

b_owns : owns (contended.phase "b") ≡ true
unfolding owns act turn
b_owns = refl

a_refused : contended.phase "a" ≡ refused
unfolding act turn
a_refused = refl

one_owner_example : owns (contended.phase "a") ≡ false
one_owner_example = one_owner {w = contended} "b" "a" contended_reached refl b_owns

never_lost_example : ¬ (contended.phase "b" ≡ lost)
never_lost_example = never_lost {w = contended} "b" contended_reached

-- the owner ends, and another run comes
abbrev abandoned : World
abandoned = die "b" contended

-- recovery quarantines its gate, and then the other run gets on
abbrev recovered : World
recovered = act "c" (act "c" (act "c" (take_gate (quarantine "b" (clean "b" abandoned)))))

c_owns : owns (recovered.phase "c") ≡ true
unfolding owns act turn die clean quarantine take_gate
c_owns = refl
