-- ===== src/Backtest.antt =====
-- src/sentum/backtest/Backtest.hpp: the metrics of a list of closed trades. The lines of a replay file and
-- their order are in `Replay`.
pub mod Drawdown
pub mod Replay
use sentum.Prelude.{
  ℕ, ◌+◌, ◌-◌, Bool, true, false, ◌&&◌, List, [], ◌∷◌, ◌++◌, if◌then◌else◌, ltb, length,
}
use sentum.Float.{
  Double, ◌⊕◌, ◌⊖◌, ◌⊗◌, ◌⊘◌, lt, gt, ge, nought, one, from_size, fmax, fabs, infinity,
}
use sentum.Trader.Position.{TradePosition}

pub record BacktestMetrics (W : Type 0) : Type 0 where
  pub net_profit : W
  pub max_drawdown : W
  pub profit_factor : W
  pub win_rate : W
  pub expectancy : W
  pub sharpe : W
  pub sortino : W
  pub fee_share : W
  pub slippage_sensitivity : W
  pub trades : ℕ

-- The variables of the loop over the trades.
pub record Totals (W : Type 0) : Type 0 where
  pub equity : W
  pub peak : W
  pub drawdown : W
  pub gross_win : W
  pub gross_loss : W
  pub fees : W
  pub wins : ℕ
  pub returns : List W

module _ {W : Type 0} ⦃d : Double W⦄ where
  abbrev pub new_metrics : BacktestMetrics W
  new_metrics = record {
    net_profit = nought;
    max_drawdown = nought;
    profit_factor = nought;
    win_rate = nought;
    expectancy = nought;
    sharpe = nought;
    sortino = nought;
    fee_share = nought;
    slippage_sensitivity = nought;
    trades = 0;
  }

  abbrev pub new_totals : Totals W
  new_totals = record {
    equity = nought;
    peak = nought;
    drawdown = nought;
    gross_win = nought;
    gross_loss = nought;
    fees = nought;
    wins = 0;
    returns = [];
  }

  unfoldable pub sum : W → List W → W
  sum total [] = total
  sum total (x ∷ xs) = sum (total ⊕ x) xs

  unfoldable pub mean_of : List W → W
  mean_of [] = nought
  mean_of (x ∷ xs) = sum nought (x ∷ xs) ⊘ from_size (length (x ∷ xs))

  -- The values that `deviation` counts.
  unfoldable pub counted : Bool → List W → List W
  counted downside_only [] = []
  counted downside_only (x ∷ xs) =
      let rest = counted downside_only xs in if downside_only && ge x nought then rest else x ∷ rest

  unfoldable pub squares : W → W → List W → W
  squares center total [] = total
  squares center total (x ∷ xs) = squares center (total ⊕ (x ⊖ center) ⊗ (x ⊖ center)) xs

  unfoldable pub deviation : List W → W → Bool → W
  deviation xs center downside_only =
      let kept = counted downside_only xs in
      if ltb 1 (length kept)
      then d.sqrt (squares center nought kept ⊘ from_size (length kept - 1))
      else nought

  -- One round of the loop.
  unfoldable pub add_trade : Totals W → TradePosition W → Totals W
  add_trade m t =
      let equity = m.equity ⊕ t.net_profit in
      let peak = fmax m.peak equity in
      let won = gt t.net_profit nought in
      record {
        equity = equity;
        peak = peak;
        drawdown = fmax m.drawdown (peak ⊖ equity);
        gross_win = if won then m.gross_win ⊕ t.net_profit else m.gross_win;
        gross_loss = if won then m.gross_loss else m.gross_loss ⊕ d.neg t.net_profit;
        fees = m.fees ⊕ (t.fee_entry ⊕ t.fee_exit);
        wins = if won then m.wins + 1 else m.wins;
        returns = m.returns ++ (t.net_profit ⊘ fmax one (t.entry_price ⊗ t.quantity) ∷ []);
      }

  unfoldable pub add_trades : Totals W → List (TradePosition W) → Totals W
  add_trades m [] = m
  add_trades m (t ∷ trades) = add_trades (add_trade m t) trades

  -- What `calculate` makes of the totals of `n` trades.
  unfoldable pub metrics_of : Totals W → ℕ → W → BacktestMetrics W
  metrics_of m n slippage_delta_profit =
      let turnover = fabs m.equity ⊕ m.fees in
      let mean = mean_of m.returns in
      let sd = deviation m.returns mean false in
      let downside = deviation m.returns nought true in
      let root = d.sqrt (from_size (length m.returns)) in
      record {
        net_profit = m.equity;
        max_drawdown = m.drawdown;
        profit_factor = if gt m.gross_loss nought then m.gross_win ⊘ m.gross_loss else infinity;
        win_rate = d.lit 100 0 ⊗ from_size m.wins ⊘ from_size n;
        expectancy = m.equity ⊘ from_size n;
        sharpe = if gt sd nought then mean ⊘ sd ⊗ root else nought;
        sortino = if gt downside nought then mean ⊘ downside ⊗ root else nought;
        fee_share = if gt turnover nought then m.fees ⊘ turnover else nought;
        slippage_sensitivity = slippage_delta_profit;
        trades = n;
      }

  unfoldable pub calculate : List (TradePosition W) → W → BacktestMetrics W
  calculate [] slippage_delta_profit = new_metrics
  calculate (t ∷ trades) slippage_delta_profit =
      metrics_of (add_trades new_totals (t ∷ trades)) (length (t ∷ trades)) slippage_delta_profit
