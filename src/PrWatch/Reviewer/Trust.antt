-- ===== src/PrWatch/Reviewer/Trust.antt =====
-- Which names and identities speak for a configured bot.
use agentic_dev_kit.Base.{
  String, ◌≡◌, refl, true, false, ◌&&◌, not, some, List, [], ◌∷◌, arith, is_some, any, elem, lower,
  strip, eq_iff, ◌==◌,
}
use agentic_dev_kit.PrWatch.Config.{Config}
use agentic_dev_kit.PrWatch.Reviewer.{
  trusted_authors, match_author, match_bot, trusted_bot_identities, match_identity,
  match_bot_identity,
}

match_author_sound :
    (cfg : Config) (low : String) (bots : List String) (bot : String)
    → match_author cfg low bots ≡ some bot
    → (elem bot bots ≡ true) × (elem low (trusted_authors cfg bot) ≡ true)
unfolding match_author elem
match_author_sound cfg low [] bot h = cc
match_author_sound cfg low (b ∷ bots) bot h =
    ground (arith, match_author_sound cfg low bots bot, eq_iff b bot)

match_author-any :
    (cfg : Config) (low : String) (bots : List String)
    → is_some (match_author cfg low bots) ≡ any (λ b. elem low (trusted_authors cfg b)) bots
unfolding match_author any
match_author-any cfg low [] = refl
match_author-any cfg low (b ∷ bots) = ground (arith, match_author-any cfg low bots)

match_identity_sound :
    (cfg : Config) (low : String) (bots : List String) (bot : String)
    → match_identity cfg low bots ≡ some bot
    → (elem bot bots ≡ true) × (elem low (trusted_bot_identities cfg bot) ≡ true)
unfolding match_identity elem
match_identity_sound cfg low [] bot h = cc
match_identity_sound cfg low (b ∷ bots) bot h =
    ground (arith, match_identity_sound cfg low bots bot, eq_iff b bot)

-- A comment author that is taken for a configured bot is one of the bots asked for, under one of
-- the exact names that the configuration trusts for it.
pub match_bot-trusted :
    (cfg : Config) (author : String) (bots : List String) (bot : String)
    → match_bot cfg author bots true ≡ some bot
    → (elem bot bots ≡ true) × (elem (lower (strip author)) (trusted_authors cfg bot) ≡ true)
unfolding match_bot
match_bot-trusted cfg author bots bot h =
    ground (arith, match_author_sound cfg (lower (strip author)) bots bot)

-- Every author is taken for some bot exactly when its name is not blank and is trusted for one.
pub match_bot-any :
    (cfg : Config) (author : String) (bots : List String)
    → is_some (match_bot cfg author bots true) ≡ (
        not (lower (strip author) == "")
        && any (λ b. elem (lower (strip author)) (trusted_authors cfg b)) bots)
unfolding match_bot
match_bot-any cfg author bots = ground (arith, match_author-any cfg (lower (strip author)) bots)

-- A check row's creator that is taken for a configured bot is one of that bot's trusted
-- identities, and its name is not blank.
pub match_bot_identity-trusted :
    (cfg : Config) (identity : String) (bots : List String) (bot : String)
    → match_bot_identity cfg identity bots ≡ some bot
    → (elem bot bots ≡ true)
      × (elem (lower (strip identity)) (trusted_bot_identities cfg bot) ≡ true)
      × ((lower (strip identity) == "") ≡ false)
unfolding match_bot_identity
match_bot_identity-trusted cfg identity bots bot h =
    ground (arith, match_identity_sound cfg (lower (strip identity)) bots bot)
