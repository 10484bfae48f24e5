-- ===== src/PrWatch/Reviewer.antt =====
-- Who a configured review bot is, and what its messages say: `_match_bot`,
-- `_trusted_bot_identities`, `_match_bot_identity`, `review_unavailable_reason`,
-- `untrusted_review_unavailable_candidate` and `is_noise` of scripts/pr_watch.py.
pub mod Trust
use agentic_dev_kit.Base.{
  String, Bool, true, false, ◌&&◌, not, Option, none, some, List, [], ◌∷◌, ◌++◌, if◌then◌else◌,
  is_some, any, filter, find?, elem, lower, strip, contains, starts_with, ends_with, without_suffix,
  concat, ◌==◌,
}
use agentic_dev_kit.PrWatch.Config.{Config}

-- `table.get(bot, ())`
unfoldable pub names_of : List (String × List String) → String → List String
names_of [] bot = []
names_of ((b, names) ∷ table) bot = if b == bot then names else names_of table bot

unfoldable pub bot_login : String → String
bot_login bot = concat (bot ∷ "[bot]" ∷ [])

-- the exact author names that a configured bot is trusted under
unfoldable pub trusted_authors : Config → String → List String
unfolding names_of bot_login
trusted_authors cfg bot = bot ∷ bot_login bot ∷ names_of cfg.bot_author_aliases bot

-- the loop over the bots
unfoldable pub match_author : Config → String → List String → Option String
match_author cfg low [] = none
match_author cfg low (bot ∷ bots) =
    let rest = match_author cfg low bots in
    if elem low (trusted_authors cfg bot) then some bot else rest

-- `_match_bot(text, bots, anchored=anchored)`
unfoldable pub match_bot : Config → String → List String → Bool → Option String
match_bot cfg txt bots anchored =
    let low = lower (strip txt) in
    if low == ""
    then none
    else if anchored
    then match_author cfg low bots
    else find? (contains low) bots

-- the names without their `[bot]` ending
unfoldable pub stripped_names : List String → List String
stripped_names [] = []
stripped_names (name ∷ names) =
    let rest = stripped_names names in
    elim (if name == "[bot]" then none else without_suffix name "[bot]") [
      | none ↦ rest
      | some short ↦ short ∷ rest
    ]

-- `_trusted_bot_identities(bot)`, a set
unfoldable pub trusted_bot_identities : Config → String → List String
unfolding trusted_authors
trusted_bot_identities cfg bot =
    let named = trusted_authors cfg bot ++ names_of cfg.bot_app_slugs bot in
    filter (λ name. not (name == "") && not (name == "[bot]")) (named ++ stripped_names named)

unfoldable pub match_identity : Config → String → List String → Option String
match_identity cfg low [] = none
match_identity cfg low (bot ∷ bots) =
    let rest = match_identity cfg low bots in
    if elem low (trusted_bot_identities cfg bot) then some bot else rest

-- `_match_bot_identity(identity, bots)`
unfoldable pub match_bot_identity : Config → String → List String → Option String
match_bot_identity cfg identity bots =
    let low = lower (strip identity) in if low == "" then none else match_identity cfg low bots

-- The first outage marker in the text. `none` for the author stands for a trusted check
-- description.
unfoldable pub review_unavailable_reason : Config → String → Option String → Option String
review_unavailable_reason cfg body author =
    elim (find? (contains (lower body)) cfg.unavailable_markers) [
      | none ↦ none
      | some reason ↦ elim author [
        | none ↦ some reason
        | some a ↦ if is_some (match_bot cfg a cfg.bots true) then some reason else none
      ]
    ]

unfoldable pub untrusted_review_unavailable_candidate :
    Config → String → Option String → Option String
untrusted_review_unavailable_candidate cfg body none = none
untrusted_review_unavailable_candidate cfg body (some author) =
    elim (review_unavailable_reason cfg body none) [
      | none ↦ none
      | some reason ↦
          if is_some (review_unavailable_reason cfg body (some author))
          then none
          else if any (starts_with (lower (strip author))) cfg.bots
          then some reason
          else none
    ]

unfoldable pub is_noise : Config → String → Option String → Bool
is_noise cfg body author =
    if is_some (review_unavailable_reason cfg body author)
    then false
    else if is_some (untrusted_review_unavailable_candidate cfg body author)
    then false
    else any (contains (lower body)) cfg.noise_markers
