-- ===== src/Tests/Research.antt =====
-- Runs of the model registry.
use sentum.Trader.Position.{TradePosition, new_position}
use sentum.Risk.Portfolio.{PortfolioRiskConfig}
use sentum.Backtest.Drawdown.{equity_after}
use sentum.Research.Portfolio.{filter_trades}
use sentum.Research.Portfolio.Accounts.{filter_trades_accounts}
use sentum.Float.{nought}
use sentum.Prelude.{ℕ, [], ◌∷◌, ◌+◌, length, ◌≡◌, refl, true, some}
use sentum.Prelude.Dict.{lookup, insert}
use sentum.Prelude.Int.{◌-ℤ◌}
use sentum.Float.Fixed.{Fixed, fixed_double, whole}
use sentum.Research.Promotion.{
  shadow, stage_name, parse_stage, valid_transition, StageEvidence, ModelDefinition, new_policy,
  ModelRow, Registry, new_registry, set_stage, registered_row, register_model, save_evidence,
  newest_evidence, latest_evidence, passes_policy, stage_of_row, stage_in, record_event, Promotion,
  settle, promote_from, promote,
}
use sentum.Research.Promotion.Gates.{Ends, promote_cases}
use sentum.Research.Promotion.History.{
  Earned, here, next, registered, saved, promoted, Reach-Earned,
}

abbrev model : ModelDefinition Fixed
model = record {
  model_id = "m1";
  name = "trend";
  symbol = "BTCUSDT";
  source_experiment_run = "run-1";
  source_git_commit = "";
  source_config_sha256 = "";
  policy = new_policy;
}

abbrev good : StageEvidence Fixed
good = record {
  stage = "research";
  started_at_ms = 0;
  finished_at_ms = 9;
  trades = 40;
  net_profit = whole 100;
  max_drawdown = whole 10;
  profit_factor = whole 2;
  win_rate = whole 60;
  expectancy = whole 2;
  sharpe = whole 1;
  sortino = whole 1;
  artifact = "";
}

abbrev request : Promotion Fixed
request = record {
  model = model;
  target = shadow;
  confirmation = "I_APPROVE_MODEL_PROMOTION";
  now = 20;
  recorded = true;
  updated = true;
}

abbrev with_evidence : Registry Fixed
with_evidence = (save_evidence (register_model new_registry model "" 10 true).0 "m1" good true).0

promote_cases_example : Ends with_evidence request (promote with_evidence request)
promote_cases_example = promote_cases with_evidence request

abbrev shadow_row : ModelRow
shadow_row = record {
  name = "trend";
  symbol = "BTCUSDT";
  stage = "shadow";
  source_experiment_run = "run-1";
  source_git_commit = "";
  source_config_sha256 = "";
  definition_json = "";
  created_at_ms = 10;
  updated_at_ms = 20;
}

moved : lookup "m1" (promote with_evidence request).0.models ≡ some shadow_row
unfolding lookup insert stage_name parse_stage valid_transition set_stage registered_row
    register_model save_evidence newest_evidence latest_evidence passes_policy stage_of_row stage_in
    record_event settle promote_from promote ◌-ℤ◌
moved = refl

Reach-Earned_example : Earned (promote with_evidence request).0.promotion_events "m1" shadow_row
Reach-Earned_example =
    Reach-Earned (promote with_evidence request).0 "m1" shadow_row
      (next (next (next here (registered new_registry model "" 10 true)) (saved _ "m1" good true))
        (promoted with_evidence request))
      moved

-- Two trades, one after the other.
abbrev candidate : ℕ → ℕ → TradePosition Fixed
candidate entry profit = record new_position {
  symbol = "BTCUSDT";
  entry_price = whole 10;
  quantity = whole 1;
  net_profit = whole profit;
  entry_time = entry;
  exit_time = entry + 5;
}

abbrev limits : PortfolioRiskConfig Fixed
limits = record {
  max_gross_exposure = whole 1;
  max_asset_exposure = whole 1;
  max_correlated_exposure = whole 1;
  max_daily_drawdown = whole 1;
  max_consecutive_losses = 5;
  max_trades_per_hour = 20;
  target_volatility = nought;
  minimum_size_multiplier = whole 1;
  maximum_size_multiplier = whole 1;
  correlation_threshold = whole 1;
}

filter_trades_accounts_example :
    let f = filter_trades limits [] [] (whole 1000) (candidate 10 3 ∷ candidate 20 4 ∷ []) 100 in
    (f.opened ≡ [])
    × (length f.accepted ≡ f.accepted_trades)
    × (f.accepted_trades + f.rejected_trades ≡ 2)
    × (f.equity ≡ equity_after (whole 1000) f.accepted)
filter_trades_accounts_example =
    filter_trades_accounts limits [] [] (whole 1000) 100 (candidate 10 3 ∷ candidate 20 4 ∷ []) refl
