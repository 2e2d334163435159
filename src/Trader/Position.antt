-- ===== src/Trader/Position.antt =====
-- src/sentum/trader/types/TradePosition.hpp.
use sentum.Prelude.{ℕ, String, Bool, false}
use sentum.Float.{Double, nought, one}

pub record TradePosition (W : Type 0) : Type 0 where
  pub opened : Bool
  pub simulated : Bool
  pub risk_approved : Bool
  pub symbol : String
  pub source : String
  pub strategy : String
  pub signal_reason : String
  pub risk_reason : String
  pub notes : String
  pub order_type : String
  pub client_order_id : String
  pub exchange_order_id : String
  pub reference_price : W
  pub entry_price : W
  pub quantity : W
  pub executed_price : W
  pub execution_latency_ms : ℕ
  pub signal_time : ℕ
  pub entry_time : ℕ
  pub highest_price : W
  pub lowest_price : W
  pub stop_loss_price : W
  pub take_profit_price : W
  pub exit_price : W
  pub exit_time : ℕ
  pub gross_profit : W
  pub net_profit : W
  pub fee_entry : W
  pub fee_exit : W
  pub initial_balance : W
  pub closing_balance : W
  pub capital_at_risk : W
  pub leverage : W
  pub risk_per_trade : W
  pub stop_loss_percent : W
  pub trailing_sl_enabled : Bool
  pub trailing_sl_percent : W
  pub take_profit_percent : W
  pub trailing_tp_enabled : Bool
  pub trailing_tp_percent : W
  pub buy_fee_percent : W
  pub sell_fee_percent : W
  pub close_reason : String
  pub stop_loss_triggered : Bool
  pub take_profit_triggered : Bool

-- `TradePosition{}`: the member initialisers.
abbrev pub new_position : {W : Type 0} ⦃d : Double W⦄ → TradePosition W
new_position = record {
  opened = false;
  simulated = false;
  risk_approved = false;
  symbol = "";
  source = "";
  strategy = "";
  signal_reason = "";
  risk_reason = "";
  notes = "";
  order_type = "";
  client_order_id = "";
  exchange_order_id = "";
  reference_price = nought;
  entry_price = nought;
  quantity = nought;
  executed_price = nought;
  execution_latency_ms = 0;
  signal_time = 0;
  entry_time = 0;
  highest_price = nought;
  lowest_price = nought;
  stop_loss_price = nought;
  take_profit_price = nought;
  exit_price = nought;
  exit_time = 0;
  gross_profit = nought;
  net_profit = nought;
  fee_entry = nought;
  fee_exit = nought;
  initial_balance = nought;
  closing_balance = nought;
  capital_at_risk = nought;
  leverage = one;
  risk_per_trade = nought;
  stop_loss_percent = nought;
  trailing_sl_enabled = false;
  trailing_sl_percent = nought;
  take_profit_percent = nought;
  trailing_tp_enabled = false;
  trailing_tp_percent = nought;
  buy_fee_percent = nought;
  sell_fee_percent = nought;
  close_reason = "";
  stop_loss_triggered = false;
  take_profit_triggered = false;
}
