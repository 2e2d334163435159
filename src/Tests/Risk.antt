-- ===== src/Tests/Risk.antt =====
-- Runs of the risk checks.
use sentum.Prelude.{length, ◌≡◌, refl, ◌⊎◌, inl, true, false, List, [], ◌∷◌, ◌++◌, ltb}
use sentum.Prelude.Dict.{lookup}
use sentum.Float.{le, gt, nought, one, ◌⊗◌}
use sentum.Float.Fixed.{Fixed, fixed_double, Fixed-IsFloat}
use sentum.Risk.Entry.{approve_entry, sized, IsAdmissible, approve_entry_sound}
use sentum.Risk.Portfolio.{
  PortfolioRiskConfig, PortfolioRiskSnapshot, exposures, drawdown, approve, multiplier,
  trades_after, approve_keeps_limits,
}
use sentum.Risk.Daily.{DailyRisk, DailyStep, propose, check}
use sentum.Tests.{dollars, risk, buy_now}

approve_entry_sound_example :
    let r = approve_entry risk buy_now (dollars 100) 5_000 0 6_000 in
    ((r.approved ≡ true)
      × IsAdmissible risk buy_now (dollars 100) 5_000 0 6_000
      × (r.quantity ≡ sized risk (dollars 100))
      × (r.notional ≡ sized risk (dollars 100) ⊗ dollars 100))
    ⊎ ((r.approved ≡ false) × (r.quantity ≡ nought) × (r.notional ≡ nought))
approve_entry_sound_example = approve_entry_sound risk buy_now (dollars 100) 5_000 0 6_000

sound : IsAdmissible risk buy_now (dollars 100) 5_000 0 6_000
sound = record {
  buys = refl;
  priced = refl;
  recent = refl;
  rested = inl refl;
  stop_distance = refl;
  minimum = refl;
  maximum = inl refl;
  worth = refl;
  funded = refl;
}

abbrev limits : PortfolioRiskConfig Fixed
limits = record {
  max_gross_exposure = one;
  max_asset_exposure = fixed_double.lit 35 2;
  max_correlated_exposure = fixed_double.lit 60 2;
  max_daily_drawdown = fixed_double.lit 5 2;
  max_consecutive_losses = 5;
  max_trades_per_hour = 20;
  target_volatility = fixed_double.lit 2 2;
  minimum_size_multiplier = fixed_double.lit 20 2;
  maximum_size_multiplier = fixed_double.lit 150 2;
  correlation_threshold = fixed_double.lit 75 2;
}

abbrev portfolio : PortfolioRiskSnapshot Fixed
portfolio = record {
  equity = dollars 1000;
  day_start_equity = dollars 1010;
  positions = record { symbol = "BTCUSDC"; notional = dollars 100 } ∷ [];
  annualized_volatility = ("BTCUSDC", fixed_double.lit 4 2) ∷ [];
  correlations = [];
  consecutive_losses = 1;
  trade_times = 7_000 ∷ [];
}

approve_keeps_limits_example :
    let r = approve limits "BTCUSDC" (dollars 200) portfolio 9_000 in
    let after =
      exposures limits portfolio "BTCUSDC"
        (portfolio.positions ++ (record { symbol = "BTCUSDC"; notional = dollars 200 } ∷ [])) in
    (r.approved ≡ false)
    ⊎ (((gt portfolio.day_start_equity nought ≡ false)
          ⊎ (le limits.max_daily_drawdown (drawdown limits portfolio) ≡ false))
        × (ltb portfolio.consecutive_losses limits.max_consecutive_losses ≡ true)
        × (ltb (length (trades_after 9_000 portfolio.trade_times)) limits.max_trades_per_hour
            ≡ true)
        × (gt after.gross limits.max_gross_exposure ≡ false)
        × (gt after.same_asset limits.max_asset_exposure ≡ false)
        × (le limits.minimum_size_multiplier r.size_multiplier ≡ true)
        × (le r.size_multiplier limits.maximum_size_multiplier ≡ true))
unfolding multiplier lookup
approve_keeps_limits_example =
    approve_keeps_limits limits Fixed-IsFloat "BTCUSDC" (dollars 200) portfolio 9_000 refl refl

abbrev day : DailyRisk Fixed
day = record {
  max_daily_loss = dollars 50;
  max_trade_loss = dollars 20;
  max_trades_per_day = 1;
  daily_loss = nought;
  trades_today = 0;
  last_reset = 0;
}

abbrev proposals : List (DailyStep Fixed)
proposals = propose (dollars 10) (dollars 5) ∷ propose (dollars 10) (dollars 5) ∷ check 9 ∷ []
