-- ===== src/Research/Portfolio.antt =====
-- src/sentum/research/PortfolioResearch.hpp: the replay of the candidate trades of several assets through the
-- portfolio's risk manager, from the sorted candidates on, and the statistics that it takes of prices. Loading
-- the configuration, the replay of each asset and the report are left out. `std::log` is a parameter.
pub mod Accounts
use sentum.Prelude.{
  ℕ, suc, ◌+◌, ◌-◌, ◌*◌, String, Bool, true, false, not, ◌&&◌, ◌||◌, Option, none, some, List, [],
  ◌∷◌, ◌++◌, if◌then◌else◌, ◌==◌, leb, ltb, length, map,
}
use sentum.Prelude.Dict.{Dict, insert}
use sentum.Prelude.Sort.{stable_sort}
use sentum.Clock.{from_seconds}
use sentum.Float.{Double, ◌⊕◌, ◌⊖◌, ◌⊗◌, ◌⊘◌, lt, gt, nought, from_size}
use sentum.Trader.Position.{TradePosition}
use sentum.Backtest.{BacktestMetrics, sum, calculate}
use sentum.Risk.Portfolio.{
  PortfolioRiskConfig, PortfolioPosition, PortfolioRiskSnapshot, PortfolioDecision, approve,
}

module _ {W : Type 0} ⦃d : Double W⦄ where
  unfoldable pub scale_trade : TradePosition W → W → TradePosition W
  scale_trade t multiplier = record t {
    quantity = t.quantity ⊗ multiplier;
    gross_profit = t.gross_profit ⊗ multiplier;
    net_profit = t.net_profit ⊗ multiplier;
    fee_entry = t.fee_entry ⊗ multiplier;
    fee_exit = t.fee_exit ⊗ multiplier;
    capital_at_risk = t.capital_at_risk ⊗ multiplier;
  }

  -- `std::sort` leaves the order of equals open.
  unfoldable pub sorted_by_exit : List (TradePosition W) → List (TradePosition W)
  sorted_by_exit trades = stable_sort (λ t. t.exit_time) trades

  module _ (log : W → W) where
    -- The logarithmic returns where all four prices are above 0.
    unfoldable pub paired_returns : List W → List W → List (W × W)
    paired_returns [] ys = []
    paired_returns (a ∷ xs) [] = []
    paired_returns (a ∷ []) (b ∷ ys) = []
    paired_returns (a ∷ a' ∷ xs) (b ∷ []) = []
    paired_returns (a ∷ a' ∷ xs) (b ∷ b' ∷ ys) =
        let rest = paired_returns (a' ∷ xs) (b' ∷ ys) in
        if gt a nought && (gt a' nought && (gt b nought && gt b' nought))
        then (log (a' ⊘ a), log (b' ⊘ b)) ∷ rest
        else rest

    -- The sums of the products of the distances from the means: `cov`, `vx` and `vy`.
    unfoldable pub moments : W → W → W × W × W → List (W × W) → W × W × W
    moments mx my (cov, vx, vy) [] = (cov, vx, vy)
    moments mx my (cov, vx, vy) ((x, y) ∷ pairs) =
        let dx = x ⊖ mx in
        let dy = y ⊖ my in moments mx my (cov ⊕ dx ⊗ dy, vx ⊕ dx ⊗ dx, vy ⊕ dy ⊗ dy) pairs

    unfoldable pub coefficient : W × W × W → W
    coefficient (cov, vx, vy) =
        if gt vx nought && gt vy nought then cov ⊘ d.sqrt (vx ⊗ vy) else nought

    unfoldable pub correlation : List W → List W → W
    correlation xs ys =
        let pairs = paired_returns xs ys in
        let size = from_size (length pairs) in
        if ltb (length xs) 3 || ltb (length ys) 3
        then nought
        else if ltb (length pairs) 2
        then nought
        else coefficient (
            moments (sum nought (map (λ p. p.0) pairs) ⊘ size)
              (sum nought (map (λ p. p.1) pairs) ⊘ size) (nought, nought, nought) pairs)

    unfoldable pub price_returns : List W → List W
    price_returns [] = []
    price_returns (a ∷ []) = []
    price_returns (a ∷ a' ∷ xs) =
        let rest = price_returns (a' ∷ xs) in
        if gt a nought && gt a' nought then log (a' ⊘ a) ∷ rest else rest

    unfoldable pub variance : W → W → List W → W
    variance mean total [] = total
    variance mean total (x ∷ xs) = variance mean (total ⊕ (x ⊖ mean) ⊗ (x ⊖ mean)) xs

    unfoldable pub realized_volatility : List W → W
    realized_volatility prices =
        let r = price_returns prices in
        let mean = sum nought r ⊘ from_size (length r) in
        if ltb (length prices) 3
        then nought
        else if ltb (length r) 2
        then nought
        else d.sqrt (variance mean nought r ⊘ from_size (length r - 1))
          ⊗ d.sqrt (d.lit 365 0 ⊗ d.lit 24 0 ⊗ d.lit 60 0 ⊗ d.lit 60 0)

-- Times more than an hour before the entry leave at the front.
unfoldable pub recent_times : ℕ → List ℕ → List ℕ
recent_times entry [] = []
recent_times entry (t ∷ times) =
    let later = recent_times entry times in
    if ltb (t + from_seconds 3600) entry then later else t ∷ times

-- The variables of the loop over the candidates.
pub record Filter (W : Type 0) : Type 0 where
  pub equity : W
  pub opened : List (TradePosition W)
  pub accepted : List (TradePosition W)
  pub trade_times : List ℕ
  pub consecutive_losses : ℕ
  pub accepted_trades : ℕ
  pub rejected_trades : ℕ

module _ {W : Type 0} ⦃d : Double W⦄ where
  abbrev pub new_filter : W → Filter W
  new_filter starting_equity = record {
    equity = starting_equity;
    opened = [];
    accepted = [];
    trade_times = [];
    consecutive_losses = 0;
    accepted_trades = 0;
    rejected_trades = 0;
  }

  unfoldable pub close_trade : Filter W → TradePosition W → Filter W
  close_trade f t = record f {
    equity = f.equity ⊕ t.net_profit;
    consecutive_losses = if lt t.net_profit nought then f.consecutive_losses + 1 else 0;
    accepted = f.accepted ++ (t ∷ []);
  }

  -- The loop of `close_until` over what is left of `open`; the trades that stay are gathered in order.
  unfoldable pub close_from : ℕ → Filter W → List (TradePosition W) → Filter W
  close_from at f [] = f
  close_from at f (t ∷ rest) =
      let closed = close_from at (close_trade f t) rest in
      let kept = close_from at (record f { opened = f.opened ++ (t ∷ []) }) rest in
      if leb t.exit_time at then closed else kept

  unfoldable pub close_until : ℕ → Filter W → Filter W
  close_until at f = close_from at (record f { opened = [] }) f.opened

  abbrev pub position_of : TradePosition W → PortfolioPosition W
  position_of p = record { symbol = p.symbol; notional = p.entry_price ⊗ p.quantity }

  module _ (config : PortfolioRiskConfig W) (correlations : Dict (Dict W)) (volatility : Dict W)
      (day_start : W) where
    abbrev pub snapshot_of : Filter W → PortfolioRiskSnapshot W
    snapshot_of f = record {
      equity = f.equity;
      day_start_equity = day_start;
      positions = map position_of f.opened;
      annualized_volatility = volatility;
      correlations = correlations;
      consecutive_losses = f.consecutive_losses;
      trade_times = f.trade_times;
    }

    unfoldable pub decide : Filter W → TradePosition W → PortfolioDecision W → Filter W
    decide f trade decision =
        if not decision.approved
        then record f { rejected_trades = f.rejected_trades + 1 }
        else record f {
          opened = f.opened ++ (scale_trade trade decision.size_multiplier ∷ []);
          trade_times = recent_times trade.entry_time (f.trade_times ++ (trade.entry_time ∷ []));
          accepted_trades = f.accepted_trades + 1;
        }

    -- A round of the loop over the candidates.
    unfoldable pub consider : Filter W → TradePosition W → Filter W
    consider f trade =
        let current = close_until trade.entry_time f in
        decide current trade (
          approve config trade.symbol (trade.entry_price ⊗ trade.quantity) (snapshot_of current)
            trade.entry_time)

    unfoldable pub consider_all : Filter W → List (TradePosition W) → Filter W
    consider_all f [] = f
    consider_all f (trade ∷ trades) = consider_all (consider f trade) trades

  -- The loop, with the starting equity as that of the day, and the close at the end of all times, `last`.
  unfoldable pub filter_trades :
      PortfolioRiskConfig W → Dict (Dict W) → Dict W → W → List (TradePosition W) → ℕ → Filter W
  filter_trades config correlations volatility starting_equity raw_trades last = close_until last (
      consider_all config correlations volatility starting_equity (new_filter starting_equity)
        raw_trades)

  unfoldable pub portfolio_filtered : Filter W → BacktestMetrics W
  portfolio_filtered f = calculate (sorted_by_exit f.accepted) nought
