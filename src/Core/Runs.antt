-- ===== src/Core/Runs.antt =====
-- Runs of the execution engine: which profits reach the paper account.
use sentum.Prelude.{String, Bool, true, not, ◌&&◌, ◌||◌, Option, none, some, List, [], ◌∷◌}
use sentum.Prelude.Int.{pos, ◌+ℤ◌}
use sentum.Float.{nought}
use sentum.Float.Fixed.{Fixed, fixed_double}
use sentum.Trader.Control.{RuntimeControl}
use sentum.Core.{
  Trader, ExecutionEngine, earn, trader_returns, main_step, on_top_changed, monitor_round,
  stop_engine,
}
use sentum.Core.Profits.{unbooked, is_recording}

-- What happens between the threads: a trade is closed, the trader's thread returns, a phase of the main loop,
-- a new top symbol, a round of the scanner's thread, a change by the operator, and the stop.
pub data Step (J : Type 0) : Type 0 where
  earns : Fixed → Step J
  returns : Step J
  rounds : Bool → Step J
  announces : String → Step J
  monitors : Bool → Step J
  operates : RuntimeControl J → Step J
  stops : Step J

abbrev pub gain_of : Option (Trader Fixed) → Fixed → Fixed
gain_of none profit = pos 0
gain_of (some t) profit = profit

module _ {J : Type 0} where
  abbrev pub do_step : ExecutionEngine J Fixed → Step J → ExecutionEngine J Fixed
  do_step c (earns profit) = earn c profit
  do_step c returns = trader_returns c
  do_step c (rounds loads) = main_step c [] loads
  do_step c (announces symbol) = on_top_changed c symbol
  do_step c (monitors loads) = monitor_round c loads
  do_step c (operates control) = record c { control = control }
  do_step c stops = stop_engine c []

  abbrev pub run : ExecutionEngine J Fixed → List (Step J) → ExecutionEngine J Fixed
  run c [] = c
  run c (s ∷ steps) = run (do_step c s) steps

  -- The profit of the trades in a run.
  abbrev pub gain : ExecutionEngine J Fixed → Step J → Fixed
  gain c (earns profit) = gain_of c.trader profit
  gain c returns = pos 0
  gain c (rounds loads) = pos 0
  gain c (announces symbol) = pos 0
  gain c (monitors loads) = pos 0
  gain c (operates control) = pos 0
  gain c stops = pos 0

  abbrev pub earned : ExecutionEngine J Fixed → List (Step J) → Fixed
  earned c [] = pos 0
  earned c (s ∷ steps) = gain c s +ℤ earned (do_step c s) steps

  -- The scanner's thread finds no trader that has returned with unbooked profit, and neither it nor the stop falls
  -- between a booking of the main loop and its assignment to `accounted_profit_`.
  abbrev pub safe : ExecutionEngine J Fixed → Step J → Bool
  safe c (monitors loads) =
      c.trader_active || fixed_double.eq (unbooked c) nought && not (is_recording c.phase)
  safe c (earns profit) = true
  safe c returns = true
  safe c (rounds loads) = true
  safe c (announces symbol) = true
  safe c (operates control) = true
  safe c stops = not (is_recording c.phase)

  abbrev pub careful : ExecutionEngine J Fixed → List (Step J) → Bool
  careful c [] = true
  careful c (s ∷ steps) = safe c s && careful (do_step c s) steps
