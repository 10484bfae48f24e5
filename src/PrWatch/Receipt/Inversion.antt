-- ===== src/PrWatch/Receipt/Inversion.antt =====
-- What a check of a receipt that passes says of its parts.
use agentic_dev_kit.Base.{
  String, ◌≡◌, refl, ap, ◌∙◌, Bool, true, false, not, Option, none, some, List, [], ◌∷◌, arith,
  &&-left, &&-right, eq_iff,
}
use agentic_dev_kit.Base.Json.{Json, str, obj, Fields, as_text, as_obj}
use agentic_dev_kit.PrWatch.Repo.{Answer, answer, refusal}
use agentic_dev_kit.PrWatch.Receipt.{
  CoverageError, Check, pass, fail, ◌>>=◌, ◌>>◌, require, need, same_texts,
}
use agentic_dev_kit.PrWatch.Receipt.Validate.{some_text, git_paths}

pub bind_inv {ℓ κ} :
    {A : Type ℓ} {B : Type κ} (m : Check A) (f : A → Check B) (b : B)
    → (m >>= f) ≡ pass b
    → (a : A) × (m ≡ pass a) × (f a ≡ pass b)
unfolding ◌>>=◌
bind_inv (pass a) f b h = (a, refl, h)
bind_inv (fail e) f b h = cc

pub need_inv {ℓ κ} :
    {A : Type ℓ} {B : Type κ} (o : Option A) (e : CoverageError) (f : A → Check B) (b : B)
    → (need o e >>= f) ≡ pass b
    → (a : A) × (o ≡ some a) × (f a ≡ pass b)
unfolding ◌>>=◌
need_inv none e f b h = cc
need_inv (some a) e f b h = (a, refl, h)

pub guard_inv {κ} :
    {B : Type κ} (c : Bool) (e : CoverageError) (k : Check B) (b : B)
    → (require c e >> k) ≡ pass b
    → (c ≡ true) × (k ≡ pass b)
unfolding ◌>>=◌ ◌>>◌
guard_inv true e k b h = (refl, h)
guard_inv false e k b h = cc

pub text_inv : (o : Option Json) (s : String) → as_text o ≡ some s → o ≡ some (str s)
text_inv (some (str t)) s h = cc h
text_inv _ s h = cc

pub obj_inv : (j : Json) (fs : Fields) → as_obj (some j) ≡ some fs → j ≡ obj fs
obj_inv (obj gs) fs h = cc h
obj_inv _ fs h = cc

pub same_texts-inv : (xs ys : List String) → same_texts xs ys ≡ true → xs ≡ ys
unfolding same_texts
same_texts-inv [] [] h = refl
same_texts-inv (x ∷ xs) (y ∷ ys) h =
    ap (λ z. z ∷ xs) ((eq_iff x y).0 (&&-left _ _ h))
    ∙ ap (λ zs. y ∷ zs) (same_texts-inv xs ys (&&-right _ _ h))
same_texts-inv _ _ h = cc

pub false_of_not : (b : Bool) → not b ≡ true → b ≡ false
false_of_not b h = ground arith

pub then_inv {κ} :
    {B : Type κ} (m : Check (Unit {0})) (k : Check B) (b : B)
    → (m >> k) ≡ pass b
    → (m ≡ pass tt) × (k ≡ pass b)
unfolding ◌>>=◌ ◌>>◌
then_inv (pass u) k b h = (refl, h)
then_inv (fail e) k b h = cc

pub some_text_inv :
    (o : Option Json) (e : CoverageError) (s : String) → some_text o e ≡ pass s → o ≡ some (str s)
unfolding some_text
some_text_inv o e s h =
    let (t, found, h1) = need_inv _ _ _ _ h in
    let (there, h2) = guard_inv _ _ _ _ h1 in
    let same : t ≡ s = cc h2 in text_inv o s (found ∙ ap some same)

pub git_paths_inv :
    (a : Answer (List String)) (paths : List String) → git_paths a ≡ pass paths → a ≡ answer paths
unfolding git_paths
git_paths_inv (answer ps) paths h = cc h
git_paths_inv (refusal why) paths h = cc

pub moved :
    (f : String → String → Answer (List String)) {a b c d : String} {ps qs : List String}
    → a ≡ b
    → c ≡ d
    → ps ≡ qs
    → f a c ≡ answer qs
    → f b d ≡ answer ps
moved f e1 e2 e3 h = cc (e1, e2, e3, h)
