-- ===== src/Tests/Trader.antt =====
-- Runs of the trade engine.
use sentum.Prelude.{ℕ, ◌≡◌, refl, true, false, List, [], ◌∷◌}
use sentum.Float.Fixed.{Fixed, fixed_double}
use sentum.Strategy.Types.{TradeAction}
use sentum.Order.Manager.{ok}
use sentum.Trader.Control.{RuntimeControl}
use sentum.Trader.Query.{Params, bytes_eq, build, read_query}
use sentum.Trader.Query.Fields.{read_query-build}
use sentum.Trader.Position.{TradePosition, new_position}
use sentum.Trader.Engine.{TradeEngine, Services, new_engine, process_event}
use sentum.Trader.Engine.Books.{
  Input, event, pause, close_request, Accounts, Settled, run, alternates, run_settles,
  run-alternates, profits, winners,
}
use sentum.Trader.Engine.Guards.{replayed_entry_refused}
use sentum.Tests.{dollars, risk, always, quote_event}

-- A repository that takes every trade, and counts them.
abbrev services : Services ℕ Fixed
services = record { decimal = λ n. "0"; save = λ h p. ok h }

abbrev engine : TradeEngine ℕ ℕ Fixed
engine = new_engine "BTCUSDC" risk 0 0

abbrev control : RuntimeControl ℕ
control = record {
  strategy = 0;
  auto_symbol = true;
  manual_symbol = "";
  entries_paused = false;
  manual_close = true;
  generation = 0;
}

abbrev inputs : List (Input Fixed)
inputs =
    event (quote_event "BTCUSDC" 100 5_000) 5_000 6_000
    ∷ close_request
    ∷ event (quote_event "BTCUSDC" 101 7_000) 7_000 8_000
    ∷ pause true
    ∷ []

fresh : Accounts engine engine.completed
unfolding profits winners
fresh = record { total = refl; wins = refl; trade_count = refl }

run_settles_example : Settled services always (run services always control engine inputs)
run_settles_example = run_settles services always control engine inputs fresh

run-alternates_example : alternates false (run services always control engine inputs).actions ≡ true
run-alternates_example = run-alternates services always control engine inputs

-- The event is a day old by the system clock, and current by the replay's.
replayed_entry_refused_example :
    let r =
      process_event services always engine control
        (quote_event "BTCUSDC" 100 5_000)
        5_000
        86_400_000_000_000 in
    (r.1.1 ≡ ok TradeAction.none)
    × (r.1.0.position ≡ engine.position)
    × (r.1.0.venue ≡ engine.venue)
replayed_entry_refused_example =
    replayed_entry_refused services always engine control (quote_event "BTCUSDC" 100 5_000) 5_000
      86_400_000_000_000 refl refl

abbrev held : TradePosition Fixed
held = record new_position {
  opened = true;
  highest_price = dollars 102;
  lowest_price = dollars 99;
  stop_loss_price = dollars 98;
  trailing_sl_enabled = true;
}

-- `a=1&b=2`.
abbrev params : Params
params = (97 ∷ [], 49 ∷ []) ∷ (98 ∷ [], 50 ∷ []) ∷ []

read_query-build_example : read_query (build params) ≡ params
unfolding bytes_eq
read_query-build_example = read_query-build params refl
