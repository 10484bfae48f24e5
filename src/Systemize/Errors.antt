-- ===== src/Systemize/Errors.antt =====
-- `SystemizeError` of scripts/lib/systemize/errors.py, with a value for each message, and results
-- that carry one.
use agentic_dev_kit.Base.{◌≡◌, refl, Bool, true, false, Option, none, some}

-- `crashed` is any other exception: a hard stop of `cli.main` too
pub data SystemizeError : Type 0 where
  unreadable no_json no_object foreign_kind bad_schema no_identity bad_digest : SystemizeError
  other_run not_canonical unsafe_target lock_held not_started not_running : SystemizeError
  invalid_step invalid_slice invalid_run_digest total_changed slice_regressed : SystemizeError
  digest_differs invalid_reason already_completed not_written crashed : SystemizeError

pub data Try {ℓ} (A : Type ℓ) : Type ℓ where
  done : A → Try A
  stop : SystemizeError → Try A

infixl 5 ◌>>=◌ ◌>>◌
unfoldable pub ◌>>=◌ {ℓ κ} : {A : Type ℓ} {B : Type κ} → Try A → (A → Try B) → Try B
done a >>= f = f a
stop e >>= f = stop e

unfoldable pub ◌>>◌ {ℓ} : {B : Type ℓ} → Try (Unit {0}) → Try B → Try B
m >> k = m >>= λ _. k

abbrev pub require : Bool → SystemizeError → Try (Unit {0})
require true e = done tt
require false e = stop e

abbrev pub given {ℓ} : {A : Type ℓ} → Option A → SystemizeError → Try A
given none e = stop e
given (some a) e = done a

pub bind_inv {ℓ κ} :
    {A : Type ℓ} {B : Type κ} (m : Try A) (f : A → Try B) (b : B)
    → (m >>= f) ≡ done b
    → (a : A) × (m ≡ done a) × (f a ≡ done b)
unfolding ◌>>=◌
bind_inv (done a) f b h = (a, refl, h)
bind_inv (stop e) f b h = cc

pub given_inv {ℓ κ} :
    {A : Type ℓ} {B : Type κ} (o : Option A) (e : SystemizeError) (f : A → Try B) (b : B)
    → (given o e >>= f) ≡ done b
    → (a : A) × (o ≡ some a) × (f a ≡ done b)
unfolding ◌>>=◌
given_inv none e f b h = cc
given_inv (some a) e f b h = (a, refl, h)

pub guard_inv {κ} :
    {B : Type κ} (c : Bool) (e : SystemizeError) (k : Try B) (b : B)
    → (require c e >> k) ≡ done b
    → (c ≡ true) × (k ≡ done b)
unfolding ◌>>=◌ ◌>>◌
guard_inv true e k b h = (refl, h)
guard_inv false e k b h = cc

pub then_inv {κ} :
    {B : Type κ} (m : Try (Unit {0})) (k : Try B) (b : B)
    → (m >> k) ≡ done b
    → (m ≡ done tt) × (k ≡ done b)
unfolding ◌>>=◌ ◌>>◌
then_inv (done u) k b h = (refl, h)
then_inv (stop e) k b h = cc

pub done_inj {ℓ} : {A : Type ℓ} {a b : A} → done a ≡ done b → a ≡ b
done_inj h = cc
