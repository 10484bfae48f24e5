-- ===== src/PrWatch/Config.antt =====
-- `ReviewConfig` of scripts/pr_watch.py: the resolved `review.*` knobs. Reading them from
-- config/dev-model.yaml is not modelled. The two grace windows are in clock ticks.
use agentic_dev_kit.Base.{ℕ, String, Bool, List}

pub record Config : Type 0 where
  pub noise_markers : List String
  pub unavailable_markers : List String
  pub comment_verdict_markers : List String
  pub informational_checks : List String
  pub require_ci : Bool
  pub bots : List String
  pub bot_author_aliases : List (String × List String)
  pub bot_app_slugs : List (String × List String)
  pub bot_pending_grace : ℕ
  pub settle_grace : ℕ
  pub round_budget : ℕ
