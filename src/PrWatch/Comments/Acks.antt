-- ===== src/PrWatch/Comments/Acks.antt =====
-- What acknowledging a poll's comments does to the actionable ones of the next poll.
use agentic_dev_kit.Base.{
  String, ◌≡◌, refl, Bool, true, false, not, Option, none, some, List, [], ◌∷◌, arith, is_some, all,
  any, filter, elem, elem-append, lower, strip, starts_with, eq_iff, ◌==◌,
}
use agentic_dev_kit.PrWatch.Config.{Config}
use agentic_dev_kit.PrWatch.Reviewer.{
  review_unavailable_reason, untrusted_review_unavailable_candidate, is_noise,
}
use agentic_dev_kit.PrWatch.Comments.{Comment, is_acked, new_actionable, comment_keys, seen_keys}

-- The keys of every comment of a list are in a set of texts.
abbrev pub HasKeys : List String → List Comment → Type 0
HasKeys seen [] = Unit
HasKeys seen (c ∷ cs) =
    ((k : String) → elem k (comment_keys c) ≡ true → elem k seen ≡ true) × HasKeys seen cs

HasKeys-seen_keys :
    (seen : List String) (cs : List Comment)
    → ((k : String) → elem k (seen_keys cs) ≡ true → elem k seen ≡ true)
    → HasKeys seen cs
unfolding seen_keys
HasKeys-seen_keys seen [] h = tt
HasKeys-seen_keys seen (c ∷ cs) h = (
  λ k m. h k (ground (arith, elem-append k (comment_keys c) (seen_keys cs))),
  HasKeys-seen_keys seen cs
      (λ k m. h k (ground (arith, elem-append k (comment_keys c) (seen_keys cs)))),
)

own_key : (c : Comment) (k : String) → c.ack_key ≡ some k → elem k (comment_keys c) ≡ true
unfolding comment_keys elem
own_key c k e = rw e (ground (arith, eq_iff k k))

is_acked-HasKeys :
    (seen : List String) (c : Comment)
    → ((k : String) → elem k (comment_keys c) ≡ true → elem k seen ≡ true)
    → is_acked seen c ≡ is_some c.ack_key
unfolding is_acked
is_acked-HasKeys seen c h = go c.ack_key refl
  where
    go : (o : Option String) → c.ack_key ≡ o → is_acked seen c ≡ is_some c.ack_key
    go none e = rw e
    go (some k) e = rw e (h k (own_key c k e))

pub without_token : Comment → Bool
without_token c = not (is_some c.ack_key)

all_without-HasKeys :
    (cfg : Config) (seen : List String) (cs : List Comment)
    → HasKeys seen cs
    → all without_token (new_actionable cfg cs seen) ≡ true
unfolding new_actionable all filter without_token
all_without-HasKeys cfg seen [] h = refl
all_without-HasKeys cfg seen (c ∷ cs) h =
    ground (arith, is_acked-HasKeys seen c h.0, all_without-HasKeys cfg seen cs h.1)

-- Once every key of a poll's comments is acknowledged, whatever else is, the same comments leave
-- nothing actionable but those that have no occurrence token.
pub new_actionable-acked :
    (cfg : Config) (cs : List Comment) (seen : List String)
    → ((k : String) → elem k (seen_keys cs) ≡ true → elem k seen ≡ true)
    → all without_token (new_actionable cfg cs seen) ≡ true
new_actionable-acked cfg cs seen h = all_without-HasKeys cfg seen cs (HasKeys-seen_keys seen cs h)

-- whether some comment's token is `k`
unfoldable pub has_token : String → List Comment → Bool
has_token k cs = any (λ c. elim c.ack_key [ none ↦ false | some j ↦ k == j ]) cs

-- Acknowledging a text that is no comment's occurrence token (a platform key, a content key, the
-- token of other content) suppresses nothing.
pub new_actionable-token_only :
    (cfg : Config) (cs : List Comment) (seen : List String) (k : String)
    → has_token k cs ≡ false
    → new_actionable cfg cs (k ∷ seen) ≡ new_actionable cfg cs seen
unfolding new_actionable has_token any filter is_acked elem
new_actionable-token_only cfg [] seen k h = refl
new_actionable-token_only cfg (c ∷ cs) seen k h =
    ground (arith, new_actionable-token_only cfg cs seen k)

-- An outage notice of a configured bot, or of an author whose name starts like one, is never
-- dropped as noise: it stays actionable until its own token is acknowledged.
pub outage_actionable :
    (cfg : Config) (c : Comment) (seen : List String)
    → is_some (review_unavailable_reason cfg c.body none) ≡ true
    → any (starts_with (lower (strip c.author))) cfg.bots ≡ true
    → is_acked seen c ≡ false
    → new_actionable cfg (c ∷ []) seen ≡ c ∷ []
unfolding new_actionable filter is_noise untrusted_review_unavailable_candidate
outage_actionable cfg c seen h b a = ground arith
