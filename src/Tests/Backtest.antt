-- ===== src/Tests/Backtest.antt =====
-- Runs of the metrics and of the reading of replay files.
use sentum.Prelude.{ℕ, ◌*◌, ◌≡◌, refl, true, some, List, [], ◌∷◌, ◌++◌}
use sentum.Prelude.Int.{◌+ℤ◌, ◌-ℤ◌}
use sentum.Prelude.Sort.{stable_sort, place, at_key, IsSorted}
use sentum.Float.{◌⊖◌, le, nought}
use sentum.Float.Fixed.{Fixed, fixed_double, Fixed-IsFloat, whole}
use sentum.Market.Types.{MarketEvent, new_event}
use sentum.Order.Manager.{ok}
use sentum.Collector.Parser.{Bytes, decimal_of, find_after, after_prefix}
use sentum.Prelude.Split.{split_from}
use sentum.Trader.Position.{TradePosition, new_position}
use sentum.Backtest.{calculate, add_trades, add_trade}
use sentum.Backtest.Drawdown.{equity_after, max_drawdown_covers}
use sentum.Backtest.Replay.{
  Numbers, columns_of, volume_of, event_from, event_of, push_event, read_lines, sort_events,
  read_csv, read_csv-IsSorted,
}

abbrev win : TradePosition Fixed
win = record new_position { net_profit = whole 5 }

abbrev loss : TradePosition Fixed
loss = record new_position { net_profit = fixed_double.neg (whole 3) }

max_drawdown_covers_example :
    le
      (equity_after nought (win ∷ []) ⊖ equity_after nought ((win ∷ []) ++ (loss ∷ [])))
      (calculate (((win ∷ []) ++ (loss ∷ [])) ++ (win ∷ [])) nought).max_drawdown
    ≡ true
unfolding ◌+ℤ◌ ◌-ℤ◌ add_trades add_trade
max_drawdown_covers_example =
    max_drawdown_covers Fixed-IsFloat (win ∷ []) (loss ∷ []) (win ∷ []) nought refl refl

-- Digits without a sign.
abbrev digits : Numbers Fixed
digits = record {
  stoll = λ text. some (decimal_of 0 text);
  stod = λ text. some (whole (decimal_of 0 text));
}

-- `2,5`, an empty line and `1,7`.
abbrev lines : List Bytes
lines = (50 ∷ 44 ∷ 53 ∷ []) ∷ [] ∷ (49 ∷ 44 ∷ 55 ∷ []) ∷ []

abbrev event_at : ℕ → ℕ → MarketEvent Fixed
event_at ms price = record new_event {
  symbol = "BTCUSDT";
  timestamp = ms * 1_000_000;
  price = whole price;
  close = whole price;
}

in_order : read_csv digits "BTCUSDT" lines ≡ ok (event_at 1 7 ∷ event_at 2 5 ∷ [])
unfolding split_from read_csv sort_events read_lines push_event event_of event_from volume_of
    columns_of stable_sort place decimal_of find_after after_prefix
in_order = refl

read_csv-IsSorted_example :
    (parsed : List (MarketEvent Fixed)) × (read_lines digits "BTCUSDT" true lines ≡ ok parsed)
    × IsSorted (λ e. e.timestamp) (event_at 1 7 ∷ event_at 2 5 ∷ [])
    × ((t : ℕ)
        → at_key (λ e. e.timestamp) t (event_at 1 7 ∷ event_at 2 5 ∷ [])
          ≡ at_key (λ e. e.timestamp) t parsed)
read_csv-IsSorted_example =
    read_csv-IsSorted digits "BTCUSDT" lines (event_at 1 7 ∷ event_at 2 5 ∷ []) in_order
