-- ===== src/Market/Types.antt =====
-- src/sentum/market/MarketEvent.hpp, src/sentum/market/SymbolId.hpp and src/sentum/api/model/Kline.hpp.
-- Time points are ticks of `sentum.Clock`;
-- the time of a candle is in milliseconds, as the exchange gives it.
use sentum.Prelude.{ℕ, String, Bool, true}
use sentum.Float.{Double, nought}

abbrev pub SymbolId : Type 0
SymbolId = ℕ

abbrev pub invalid_symbol_id : SymbolId
invalid_symbol_id = 0

pub data EventType : Type 0 where
  trade candle : EventType

pub record MarketEvent (W : Type 0) : Type 0 where
  pub type : EventType
  pub symbol_id : SymbolId
  pub symbol : String
  pub timestamp : ℕ
  pub price : W
  pub open_price : W
  pub high : W
  pub low : W
  pub close : W
  pub volume : W
  pub closed : Bool

-- `MarketEvent{}`: the member initialisers.
abbrev pub new_event : {W : Type 0} ⦃d : Double W⦄ → MarketEvent W
new_event = record {
  type = trade;
  symbol_id = invalid_symbol_id;
  symbol = "";
  timestamp = 0;
  price = nought;
  open_price = nought;
  high = nought;
  low = nought;
  close = nought;
  volume = nought;
  closed = true;
}

pub record Kline (W : Type 0) : Type 0 where
  pub timestamp : ℕ
  pub open_price : W
  pub high : W
  pub low : W
  pub close : W
  pub volume : W
