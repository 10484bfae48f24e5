-- ===== src/Sweep/Paths.antt =====
-- `os.path.dirname` and `os.path.basename` as scripts/sweep_scratch.py uses them, and the walk of
-- `_lineage` from a path up to its root.
use Prim.Native.Char.{Char, code}
use agentic_dev_kit.Base.{
  ℕ, zero, suc, ◌<◌, String, ◌≡◌, ◌⊎◌, inl, inr, refl, ap, true, ◌&&◌, not, Option, none, some,
  List, [], ◌∷◌, ◌||◌, arith, if◌then◌else◌, eqb, is_some, Bool-cases, ◌==◌, eq_iff,
}

-- `len(s)`
unfoldable pub size : String → ℕ
size String.[] = 0
size (String.◌∷◌ c s) = suc (size s)

-- `s[:s.rfind("/") + 1]`
unfoldable pub through_slash : String → String
through_slash String.[] = ""
through_slash (String.◌∷◌ c s) =
    let rest = through_slash s in
    if eqb (code c) 47 || not (rest == "") then String.◌∷◌ c rest else ""

-- `s.rstrip("/")`
unfoldable pub strip_slashes : String → String
strip_slashes String.[] = ""
strip_slashes (String.◌∷◌ c s) =
    let rest = strip_slashes s in if eqb (code c) 47 && rest == "" then "" else String.◌∷◌ c rest

-- `s[s.rfind("/") + 1:]`
unfoldable pub after_slash : String → String
unfolding through_slash
after_slash String.[] = ""
after_slash (String.◌∷◌ c s) =
    let rest = after_slash s in
    if eqb (code c) 47 || not (through_slash s == "") then rest else String.◌∷◌ c s

-- `os.path.dirname(p)` and `os.path.basename(p)`
unfoldable pub dirname : String → String
dirname p =
    let head = through_slash p in if strip_slashes head == "" then head else strip_slashes head

unfoldable pub basename : String → String
basename p = after_slash p

-- Each is a prefix, so it is the text itself or shorter.
abbrev Shorter : String → String → Type 0
Shorter s t = (s ≡ t) ⊎ (size s < size t)

cons-Shorter : (c : Char) (s t : String) → Shorter s t → Shorter (String.◌∷◌ c s) (String.◌∷◌ c t)
unfolding size
cons-Shorter c s t (inl e) = inl (ap (λ x. String.◌∷◌ c x) e)
cons-Shorter c s t (inr h) = inr (omega arith)

Shorter-through_slash : (s : String) → Shorter (through_slash s) s
unfolding through_slash
Shorter-through_slash String.[] = inl refl
Shorter-through_slash (String.◌∷◌ c s) =
    elim (Bool-cases (eqb (code c) 47 || not (through_slash s == ""))) [
      | inl y ↦ rw y (cons-Shorter c (through_slash s) s (Shorter-through_slash s))
      | inr n ↦ rw n (inr (unfold size in omega arith))
    ]

Shorter-strip_slashes : (s : String) → Shorter (strip_slashes s) s
unfolding strip_slashes
Shorter-strip_slashes String.[] = inl refl
Shorter-strip_slashes (String.◌∷◌ c s) =
    elim (Bool-cases (eqb (code c) 47 && strip_slashes s == "")) [
      | inl y ↦ rw y (inr (unfold size in omega arith))
      | inr n ↦ rw n (cons-Shorter c (strip_slashes s) s (Shorter-strip_slashes s))
    ]

Shorter-trans : (r s t : String) → Shorter r s → Shorter s t → Shorter r t
Shorter-trans r s t (inl e) h = rw e h
Shorter-trans r s t (inr l) (inl e) = inr (rw (← e) l)
Shorter-trans r s t (inr l) (inr m) = inr (omega arith)

pub Shorter-dirname : (p : String) → Shorter (dirname p) p
unfolding dirname
Shorter-dirname p = elim (Bool-cases (strip_slashes (through_slash p) == "")) [
  | inl y ↦ rw y (Shorter-through_slash p)
  | inr n ↦ rw n (
      Shorter-trans (strip_slashes (through_slash p)) (through_slash p) p
        (Shorter-strip_slashes (through_slash p)) (Shorter-through_slash p))
]

-- `_lineage` without its reads: the path and its ancestors, on fuel; `none` where the fuel runs out
unfoldable pub ancestors_on : ℕ → String → Option (List String)
ancestors_on zero p = none
ancestors_on (suc f) p =
    let rest = ancestors_on f (dirname p) in
    if dirname p == p then some (p ∷ []) else elim rest [ none ↦ none | some ps ↦ some (p ∷ ps) ]

-- The walk from a path to its ancestors ends: a fuel above the path's length is enough.
pub ancestors_on-is_some : (f : ℕ) (p : String) → size p < f → is_some (ancestors_on f p) ≡ true
unfolding ancestors_on
ancestors_on-is_some zero p h = absurd (omega arith)
ancestors_on-is_some (suc f) p h = elim (Shorter-dirname p) [
  | inl e ↦ rw ((eq_iff (dirname p) p).1 e) refl
  | inr l ↦ longer (ancestors_on f (dirname p)) (ancestors_on-is_some f (dirname p) (omega arith))
]
  where
    longer :
        (o : Option (List String))
        → is_some o ≡ true
        → is_some (
            if dirname p == p
            then some (p ∷ [])
            else elim o [ none ↦ none | some ps ↦ some (p ∷ ps) ])
          ≡ true
    longer none e = cc
    longer (some ps) e = ground arith
