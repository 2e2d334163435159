-- ===== src/Tests.antt =====
-- Concrete inputs, over exact fixed-point numbers, for the theorems about each part.
pub mod Market
pub mod Collector
pub mod Order
pub mod Risk
pub mod Execution
pub mod Strategy
pub mod Trader
pub mod Backtest
pub mod Research
pub mod Scanner
pub mod Core
use sentum.Prelude.{ℕ, String, Bool, true, false, List, []}
use sentum.Float.{nought, one, from_size}
use sentum.Float.Fixed.{Fixed, fixed_double}
use sentum.Market.Types.{MarketEvent, new_event}
use sentum.Risk.Config.{RiskConfig}
use sentum.Strategy.Types.{TradeAction, StrategySignal, IStrategy}

abbrev pub dollars : ℕ → Fixed
dollars n = from_size n

abbrev pub risk : RiskConfig Fixed
risk = record {
  max_total_capital = dollars 1000;
  risk_per_trade = fixed_double.lit 1 2;
  stop_loss_percent = fixed_double.lit 2 2;
  take_profit_percent = fixed_double.lit 4 2;
  trailing_sl_enabled = true;
  trailing_sl_percent = fixed_double.lit 1 2;
  trailing_tp_enabled = false;
  trailing_tp_percent = fixed_double.lit 2 2;
  buy_fee_percent = fixed_double.lit 1 3;
  sell_fee_percent = fixed_double.lit 1 3;
  slippage_percent = fixed_double.lit 5 4;
  spread_percent = fixed_double.lit 2 4;
  leverage = one;
  min_quantity = fixed_double.lit 1 6;
  max_quantity = nought;
  step_size = fixed_double.lit 1 6;
  min_notional = dollars 5;
  cooldown_seconds = 30;
  max_holding_seconds = 900;
  max_data_age_ms = 2000;
}

abbrev pub buy_now : StrategySignal Fixed
buy_now = record {
  action = TradeAction.buy;
  strategy = "always";
  reason = "demo";
  reference_price = dollars 100;
  created_at = 0;
  confidence = one;
}

-- A strategy that always buys.
abbrev pub always : IStrategy ℕ Fixed
always = record {
  on_price = λ s price at. (s, buy_now);
  on_event = λ s event. (s, buy_now);
  reset = λ s. 0;
  name = "always";
}

abbrev pub quote_event : String → ℕ → ℕ → MarketEvent Fixed
quote_event symbol price at = record new_event {
  symbol = symbol;
  timestamp = at;
  price = dollars price;
  close = dollars price;
}
