-- ===== src/PrWatch/Record/Steps.antt =====
-- What a run of `record_review` that records something went through.
use agentic_dev_kit.Base.{
  String, ◌≡◌, refl, ap, sym, ◌∙◌, ◌⊎◌, inl, inr, Bool, true, false, ◌&&◌, Option, none, some, List,
  if◌then◌else◌, strip, ◌==◌,
}
use agentic_dev_kit.Base.Json.{Json, bool, str, Fields, get, put, get-put}
use agentic_dev_kit.PrWatch.Coverage.{Signal}
use agentic_dev_kit.PrWatch.State.{put_seen}
use agentic_dev_kit.PrWatch.Repo.{Repo, ReviewClass, lens_floor}
use agentic_dev_kit.PrWatch.Receipt.{Check, pass, fail}
use agentic_dev_kit.PrWatch.Receipt.Compose.{compose_coverage}
use agentic_dev_kit.PrWatch.Record.{
  put_if, RecordError, Try, done, stop, ◌>>=◌, ◌>>◌, require, given, not_refused, composed, Request,
  Post, plain_receipt, compose_step, acknowledge, post_step,
}

pub bind_inv {ℓ κ} :
    {A : Type ℓ} {B : Type κ} (m : Try A) (f : A → Try B) (b : B)
    → (m >>= f) ≡ done b
    → (a : A) × (m ≡ done a) × (f a ≡ done b)
unfolding ◌>>=◌
bind_inv (done a) f b h = (a, refl, h)
bind_inv (stop e saved) f b h = cc

pub given_inv {ℓ κ} :
    {A : Type ℓ} {B : Type κ} (o : Option A) (e : RecordError) (f : A → Try B) (b : B)
    → (given o e >>= f) ≡ done b
    → (a : A) × (o ≡ some a) × (f a ≡ done b)
unfolding ◌>>=◌
given_inv none e f b h = cc
given_inv (some a) e f b h = (a, refl, h)

pub guard_inv {κ} :
    {B : Type κ} (c : Bool) (e : RecordError) (k : Try B) (b : B)
    → (require c e >> k) ≡ done b
    → (c ≡ true) × (k ≡ done b)
unfolding ◌>>=◌ ◌>>◌
guard_inv true e k b h = (refl, h)
guard_inv false e k b h = cc

pub then_inv {κ} :
    {B : Type κ} (m : Try (Unit {0})) (k : Try B) (b : B)
    → (m >> k) ≡ done b
    → (m ≡ done tt) × (k ≡ done b)
unfolding ◌>>=◌ ◌>>◌
then_inv (done tt) k b h = (refl, h)
then_inv (stop e saved) k b h = cc

pub composed_inv : (c : Check Json) (j : Json) → composed c ≡ done j → c ≡ pass j
composed_inv (pass k) j h = cc h
composed_inv (fail e) j h = cc

pub not_refused_inv {ℓ} :
    {A : Type ℓ} (why : A → RecordError) (o : Option A) → not_refused why o ≡ done tt → o ≡ none
not_refused_inv why none h = refl
not_refused_inv why (some e) h = cc

pub done_inv {ℓ} : {A : Type ℓ} (a b : A) → done a ≡ done b → a ≡ b
done_inv a b h = cc

and_false : (b : Bool) → (b && false) ≡ false
and_false true = refl
and_false false = refl

get-put_if :
    (b : Bool) (fs : Fields) (k j : String) (v : Json)
    → get (put_if b fs k v) j ≡ (if b && k == j then some v else get fs j)
unfolding put_if
get-put_if true fs k j v = get-put fs k j v
get-put_if false fs k j v = refl

get-acknowledge :
    (state : Fields) (key : Option String) (k : String)
    → ("seen" == k) ≡ false
    → get (acknowledge state key) k ≡ get state k
unfolding acknowledge put_seen
get-acknowledge state none k n = refl
get-acknowledge state (some key) k n = simp (get-put, n)

-- the texts that a plain receipt has
pub plain_receipt-get :
    (q : Request) (head at : String) (lenses : List String) (signal : Signal) (behind : Fields)
    → let r = plain_receipt q head lenses signal behind at in
      (get r "head" ≡ some (str head))
      × ((get r "source" ≡ some (str (strip q.source)))
          × ((get r "coverage" ≡ none)
              × ((q.allow_pending_bot ≡ true) → get r "override" ≡ some (str "pending-bot"))))
unfolding plain_receipt get
plain_receipt-get q head at lenses signal behind = (
  simp (get-put_if, and_false),
  (
    simp (get-put_if, and_false),
    (simp (get-put_if, and_false), λ h. simp (get-put_if, and_false, h)),
  ),
)

-- the hold of a repair that is to come
pub plain_receipt-held :
    (q : Request) (head at : String) (lenses : List String) (signal : Signal) (behind : Fields)
    → q.repair_pending ≡ true
    → get (plain_receipt q head lenses signal behind at) "repair_pending" ≡ some (bool true)
unfolding plain_receipt
plain_receipt-held q head at lenses signal behind h = simp (get-put_if, h)

-- the receipt with its coverage, if it was composed
pub compose_step_inv :
    (repo : Repo) (class : ReviewClass) (q : Request) (head : String) (lenses : List String)
    (state receipt : Fields) (parent : Option String) (r : Fields)
    → compose_step repo class q head lenses state receipt parent ≡ done r
    → (r ≡ receipt)
      ⊎ ((previous : Fields) × (p : String) × (coverage : Json) × (compose_coverage repo
              (lens_floor class)
              previous
              p
              head
              receipt
            ≡ pass coverage)
          × (r ≡ put receipt "coverage" coverage))
unfolding compose_step
compose_step_inv repo class q head lenses state receipt none r h = inl (sym (done_inv _ _ h))
compose_step_inv repo class q head lenses state receipt (some parent) r h =
    let (b1, h1) = guard_inv _ _ _ _ h in
    let (b2, h2) = guard_inv _ _ _ _ h1 in
    let (b3, h3) = guard_inv _ _ _ _ h2 in
    let (previous, b4, h4) = given_inv _ _ _ _ h3 in
    let (coverage, b5, h5) = bind_inv _ _ _ h4 in
    inr (previous, strip parent, coverage, composed_inv _ _ b5, sym (done_inv _ _ h5))

-- the receipt after the post keeps every key but that of the comment
pub post_step_inv :
    (post : Post) (state receipt : Fields) (text : Option String) (out : Fields × Fields)
    → post_step post state receipt text ≡ done out
    → ((k : String) → ("disposition_comment" == k) ≡ false → get out.1 k ≡ get receipt k)
      × ((k : String) → ("seen" == k) ≡ false → get out.0 k ≡ get state k)
unfolding post_step acknowledge put_seen
post_step_inv post state receipt none out h =
    let same : (state, receipt) ≡ out = done_inv _ _ h in
    (λ k n. ap (λ o. get o.1 k) (sym same), λ k n. ap (λ o. get o.0 k) (sym same))
post_step_inv post state receipt (some text) out h =
    let (b1, h1) = guard_inv _ _ _ _ h in
    let (posted, b2, h2) = given_inv _ _ _ _ h1 in
    let same = done_inv _ _ h2 in
    (
      λ k n. ap (λ o. get o.1 k) (sym same) ∙ simp (get-put, n),
      λ k n. ap (λ o. get o.0 k) (sym same) ∙ get-acknowledge state posted.1 k n,
    )
