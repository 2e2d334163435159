-- ===== src/Tests/Core.antt =====
-- Runs of the execution engine.
use sentum.Prelude.{String, true, false, none, some, List, [], ◌∷◌}
use sentum.Float.Fixed.{Fixed, fixed_double, whole}
use sentum.Float.{nought}
use sentum.Trader.Paper.{blank_account}
use sentum.Core.{ExecutionEngine, controlling}
use sentum.Core.Runs.{Step, earns, returns, rounds, announces, monitors}

abbrev idle_engine : ExecutionEngine String Fixed
idle_engine = record {
  running = true;
  trader = none;
  trader_active = false;
  accounted_profit = nought;
  paper_account = blank_account "USDT" (whole 100);
  current_symbol = "";
  pending_scanner_symbol = "btc";
  applied_control_generation = 0;
  control = record {
    strategy = "momentum";
    auto_symbol = true;
    manual_symbol = "";
    entries_paused = false;
    manual_close = false;
    generation = 0;
  };
  phase = controlling;
}

abbrev morning : List (Step String)
morning =
    monitors true
    ∷ earns (whole 5)
    ∷ rounds true
    ∷ rounds true
    ∷ rounds true
    ∷ returns
    ∷ announces "eth"
    ∷ monitors true
    ∷ []

-- A trader that has returned after a trade that is not booked.
abbrev returned : ExecutionEngine String Fixed
returned = record idle_engine {
  trader = some (record { symbol = "eth"; total_profit = whole 5; opened = false });
}
