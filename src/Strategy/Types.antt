-- ===== src/Strategy/Types.antt =====
-- src/sentum/trader/strategy/IStrategy.hpp and src/sentum/trader/types/TradeAction.hpp.
use sentum.Prelude.{ℕ, String, Bool, true, false, if◌then◌else◌}
use sentum.Float.{Double, gt, nought}
use sentum.Market.Types.{MarketEvent}

pub data TradeAction : Type 0 where
  none buy sell hold : TradeAction

abbrev pub is_buy : TradeAction → Bool
is_buy TradeAction.buy = true
is_buy _ = false

pub record StrategySignal (W : Type 0) : Type 0 where
  pub action : TradeAction
  pub strategy : String
  pub reason : String
  pub reference_price : W
  pub created_at : ℕ
  pub confidence : W

-- `StrategySignal{}`.
abbrev pub no_signal : {W : Type 0} ⦃d : Double W⦄ → StrategySignal W
no_signal = record {
  action = TradeAction.none;
  strategy = "";
  reason = "";
  reference_price = nought;
  created_at = 0;
  confidence = nought;
}

-- A strategy with state `S`: each call gives the next state.
pub record IStrategy (S W : Type 0) : Type 0 where
  pub on_price : S → W → ℕ → S × StrategySignal W
  pub on_event : S → MarketEvent W → S × StrategySignal W
  pub reset : S → S
  pub name : String

-- `event.price > 0.0 ? event.price : event.close`.
abbrev pub event_price : {W : Type 0} ⦃d : Double W⦄ → MarketEvent W → W
event_price e = if gt e.price nought then e.price else e.close
