-- ===== src/Risk/Portfolio.antt =====
-- src/sentum/trader/risk/PortfolioRiskManager.hpp: whether a further position fits the portfolio.
use sentum.Prelude.{
  ℕ, ◌+◌, ◌≡◌, refl, ◌⊎◌, inl, inr, String, Bool, true, false, ◌&&◌, ◌||◌, not, none, some, List,
  [], ◌∷◌, ◌++◌, if◌then◌else◌, ltb, leb, arith, length, filter, Bool-cases, eq_refl,
}
use sentum.Prelude.Dict.{Dict, lookup, str_eq}
use sentum.Clock.{from_seconds}
use sentum.Float.{
  Double, IsFloat, ◌⊕◌, ◌⊖◌, ◌⊘◌, le, gt, ge, fmax, fabs, clamp, is_number, nought, one,
}
use sentum.Float.Order.{clamp_bounds}

pub record PortfolioRiskConfig (W : Type 0) : Type 0 where
  pub max_gross_exposure : W
  pub max_asset_exposure : W
  pub max_correlated_exposure : W
  pub max_daily_drawdown : W
  pub max_consecutive_losses : ℕ
  pub max_trades_per_hour : ℕ
  pub target_volatility : W
  pub minimum_size_multiplier : W
  pub maximum_size_multiplier : W
  pub correlation_threshold : W

pub record PortfolioPosition (W : Type 0) : Type 0 where
  pub symbol : String
  pub notional : W

pub record PortfolioRiskSnapshot (W : Type 0) : Type 0 where
  pub equity : W
  pub day_start_equity : W
  pub positions : List (PortfolioPosition W)
  pub annualized_volatility : Dict W
  pub correlations : Dict (Dict W)
  pub consecutive_losses : ℕ
  pub trade_times : List ℕ

pub record PortfolioDecision (W : Type 0) : Type 0 where
  pub approved : Bool
  pub size_multiplier : W
  pub reason : String

pub record Exposures (W : Type 0) : Type 0 where
  pub gross : W
  pub same_asset : W
  pub correlated : W

-- `time >= now - 1h`, on integers.
pub trades_since : ℕ → List ℕ → ℕ
trades_since now [] = 0
trades_since now (t ∷ ts) =
    let rest = trades_since now ts in if leb now (t + from_seconds 3600) then rest + 1 else rest

-- The trades of the hour before `now`.
abbrev pub trades_after : ℕ → List ℕ → List ℕ
trades_after now = filter (λ (t : ℕ). leb now (t + from_seconds 3600))

trades_since_lem :
    (now : ℕ) (times : List ℕ) → trades_since now times ≡ length (trades_after now times)
unfolding trades_since
trades_since_lem now [] = refl
trades_since_lem now (t ∷ times) = ground (arith, trades_since_lem now times)

module _ {W : Type 0} ⦃d : Double W⦄ (config : PortfolioRiskConfig W) where
  abbrev reject : String → PortfolioDecision W
  reject reason = record { approved = false; size_multiplier = nought; reason = reason }

  -- `max(0, (day_start - equity) / day_start)` has reached the limit.
  unfoldable pub drawdown_reached : PortfolioRiskSnapshot W → Bool
  drawdown_reached s =
      gt s.day_start_equity nought
      && ge (fmax nought ((s.day_start_equity ⊖ s.equity) ⊘ s.day_start_equity))
          config.max_daily_drawdown

  -- The position's symbol is correlated with the symbol of the proposal.
  unfoldable pub is_correlated : PortfolioRiskSnapshot W → String → String → Bool
  is_correlated s symbol other = elim (lookup symbol s.correlations) [
    | none ↦ false
    | some row ↦ elim (lookup other row) [
      | none ↦ false
      | some corr ↦ ge (fabs corr) config.correlation_threshold
    ]
  ]

  -- One round of the loop over the positions.
  unfoldable pub add_position :
      PortfolioRiskSnapshot W → String → Exposures W → PortfolioPosition W → Exposures W
  add_position s symbol e position =
      let normalized = fabs position.notional ⊘ s.equity in
      record {
        gross = e.gross ⊕ normalized;
        same_asset =
            if str_eq position.symbol symbol then e.same_asset ⊕ normalized else e.same_asset;
        correlated =
            if is_correlated s symbol position.symbol
            then e.correlated ⊕ normalized
            else e.correlated;
      }

  pub exposures_from :
      PortfolioRiskSnapshot W → String → Exposures W → List (PortfolioPosition W) → Exposures W
  exposures_from s symbol e [] = e
  exposures_from s symbol e (p ∷ ps) = exposures_from s symbol (add_position s symbol e p) ps

  abbrev pub exposures : PortfolioRiskSnapshot W → String → List (PortfolioPosition W) → Exposures W
  exposures s symbol =
      exposures_from s symbol (record { gross = nought; same_asset = nought; correlated = nought })

  unfoldable pub multiplier : PortfolioRiskSnapshot W → String → W
  multiplier s symbol = elim (lookup symbol s.annualized_volatility) [
    | none ↦ one
    | some vol ↦
        if gt vol nought && gt config.target_volatility nought
        then config.target_volatility ⊘ vol
        else one
  ]

  unfoldable pub approve : String → W → PortfolioRiskSnapshot W → ℕ → PortfolioDecision W
  approve symbol proposed_notional s now =
      if not (gt s.equity nought) || not (gt proposed_notional nought)
      then reject "invalid portfolio equity or proposed notional"
      else if drawdown_reached s
      then reject "daily drawdown limit reached"
      else if leb config.max_consecutive_losses s.consecutive_losses
      then reject "consecutive loss limit reached"
      else if leb config.max_trades_per_hour (trades_since now s.trade_times)
      then reject "hourly trade-rate limit reached"
      else (let e = exposures s symbol s.positions in
          let proposed_fraction = proposed_notional ⊘ s.equity in
          if gt (e.gross ⊕ proposed_fraction) config.max_gross_exposure
          then reject "gross exposure limit exceeded"
          else if gt (e.same_asset ⊕ proposed_fraction) config.max_asset_exposure
          then reject "asset exposure limit exceeded"
          else if gt (e.correlated ⊕ proposed_fraction) config.max_correlated_exposure
          then reject "correlated exposure limit exceeded"
          else record {
            approved = true;
            size_multiplier =
                clamp (multiplier s symbol) config.minimum_size_multiplier
                  config.maximum_size_multiplier;
            reason = "portfolio risk approved";
          })

  -- How far the equity is below that of the day's start, as a part of it.
  abbrev pub drawdown : PortfolioRiskSnapshot W → W
  drawdown s = fmax nought ((s.day_start_equity ⊖ s.equity) ⊘ s.day_start_equity)

  exposures_from-append :
      (s : PortfolioRiskSnapshot W) (symbol : String) (e : Exposures W)
      (ps : List (PortfolioPosition W)) (p : PortfolioPosition W)
      → exposures_from s symbol e (ps ++ (p ∷ []))
        ≡ add_position s symbol (exposures_from s symbol e ps) p
  unfolding exposures_from
  exposures_from-append s symbol e [] p = refl
  exposures_from-append s symbol e (q ∷ ps) p =
      exposures_from-append s symbol (add_position s symbol e q) ps p

  module _ (laws : IsFloat W) where
    fabs_positive : (x : W) → gt x nought ≡ true → fabs x ≡ x
    fabs_positive x h =
        let (zero_num, x_num) = laws.number_of_lt nought x h in
        ground (
          arith,
          laws.lt-eq-not-le nought x zero_num x_num,
          laws.lt-eq-not-le x nought x_num zero_num,
          laws.le_total nought x zero_num x_num,
        )

    -- A proposal is approved only if the drawdown of the day is below its limit, where the day started with an
    -- equity above 0, if the losing streak and the number of trades of the last hour are below theirs, and if the portfolio with the proposal in it keeps the limits on the gross exposure
    -- and on the exposure to the asset; the size multiplier is then within its range, where the range is
    -- not empty and the multiplier is a number.
    pub approve_keeps_limits :
        (symbol : String) (notional : W) (s : PortfolioRiskSnapshot W) (now : ℕ)
        → le config.minimum_size_multiplier config.maximum_size_multiplier ≡ true
        → is_number (multiplier s symbol) ≡ true
        → let r = approve symbol notional s now in
          let after =
            exposures s symbol
              (s.positions ++ (record { symbol = symbol; notional = notional } ∷ [])) in
          (r.approved ≡ false)
          ⊎ (((gt s.day_start_equity nought ≡ false)
                ⊎ (le config.max_daily_drawdown (drawdown s) ≡ false))
              × (ltb s.consecutive_losses config.max_consecutive_losses ≡ true)
              × (ltb (length (trades_after now s.trade_times)) config.max_trades_per_hour ≡ true)
              × (gt after.gross config.max_gross_exposure ≡ false)
              × (gt after.same_asset config.max_asset_exposure ≡ false)
              × (le config.minimum_size_multiplier r.size_multiplier ≡ true)
              × (le r.size_multiplier config.maximum_size_multiplier ≡ true))
    unfolding approve add_position drawdown_reached
    approve_keeps_limits symbol notional s now range num = elim (Bool-cases (gt notional nought)) [
      | inl positive ↦
          let start : Exposures W = record {
            gross = nought;
            same_asset = nought;
            correlated = nought;
          } in
          let proposal : PortfolioPosition W = record { symbol = symbol; notional = notional } in
          let split = exposures_from-append s symbol start s.positions proposal in
          let magnitude = fabs_positive notional positive in
          let same = eq_refl symbol in
          let within =
            clamp_bounds laws (multiplier s symbol) config.minimum_size_multiplier
              config.maximum_size_multiplier num range in
          rw (split, magnitude, same, ← trades_since_lem now s.trade_times) (ground arith)
      | inr other ↦ ground arith
    ]
