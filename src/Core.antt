-- ===== src/Core.antt =====
-- src/sentum/core/ExecutionEngine.cpp: the trader that runs at a time, its symbol, and the booking of its profit
-- to the paper account. A trader is what the engine asks of it. Loading the risk configuration and making the
-- strategy, which may throw, are an argument: `false` is an exception. The dashboard, the logs, the probes of
-- the database and the start of the components are left out, and so are exceptions of writing the file of the
-- paper account.
pub mod Profits
pub mod Runs
use sentum.Prelude.{
  ℕ, String, Bool, true, false, not, ◌&&◌, ◌||◌, Option, none, some, List, [], ◌∷◌, if◌then◌else◌,
  ◌==◌,
}
use sentum.Prelude.Dict.{str_eq}
use sentum.Float.{Double, ◌⊕◌, ◌⊖◌, nought}
use sentum.Trader.Paper.{PaperAccount, apply_realized_profit}
use sentum.Trader.Control.{RuntimeControl}

-- `get_total_profit`, and whether a position is open.
pub record Trader (W : Type 0) : Type 0 where
  pub symbol : String
  pub total_profit : W
  pub opened : Bool

-- Where the thread of the main loop stands: before `apply_runtime_control`, before the booking, or between the
-- booking of a total profit and its assignment to `accounted_profit_`. No lock is held from one to the next.
pub data MainPhase (W : Type 0) : Type 0 where
  controlling booking : MainPhase W
  recording : W → MainPhase W

pub record ExecutionEngine (J W : Type 0) : Type 0 where
  pub running : Bool
  pub trader : Option (Trader W)
  pub trader_active : Bool
  pub accounted_profit : W
  pub paper_account : PaperAccount W
  pub current_symbol : String
  pub pending_scanner_symbol : String
  pub applied_control_generation : ℕ
  pub control : RuntimeControl J
  pub phase : MainPhase W

abbrev pub position_open : {W : Type 0} → Option (Trader W) → Bool
position_open none = false
position_open (some t) = t.opened

abbrev pub has_trader : {W : Type 0} → Option (Trader W) → Bool
has_trader none = false
has_trader (some t) = true

module _ {J W : Type 0} ⦃d : Double W⦄ where
  -- `delta` is booked unless it is 0.
  unfoldable pub book : ExecutionEngine J W → W → PaperAccount W
  book c delta =
      if not (d.eq delta nought)
      then apply_realized_profit c.paper_account delta
      else c.paper_account

  -- A closed trade, in the trader's thread.
  unfoldable pub earn_in : ExecutionEngine J W → Option (Trader W) → W → ExecutionEngine J W
  earn_in c none profit = c
  earn_in c (some t) profit = record c {
    trader = some (record t { total_profit = t.total_profit ⊕ profit; opened = false });
  }

  unfoldable pub earn : ExecutionEngine J W → W → ExecutionEngine J W
  earn c profit = earn_in c c.trader profit

  unfoldable pub earn_all : ExecutionEngine J W → List W → ExecutionEngine J W
  earn_all c [] = c
  earn_all c (profit ∷ profits) = earn_all (earn c profit) profits

  -- `stop_trader` up to the stop of the trader's thread.
  unfoldable pub book_final : ExecutionEngine J W → Option (Trader W) → ExecutionEngine J W
  book_final c none = c
  book_final c (some t) = record c {
    paper_account = book c (t.total_profit ⊖ c.accounted_profit);
    accounted_profit = nought;
  }

  -- `stop_trader`; `late` are the trades that close between the reading of the profit and the end of the thread.
  unfoldable pub stop_trader : ExecutionEngine J W → List W → ExecutionEngine J W
  stop_trader c late = record (earn_all (book_final c c.trader) late) {
    trader = none;
    trader_active = false;
  }

  -- With whether it returns.
  unfoldable pub start_trader_for : ExecutionEngine J W → String → Bool → ExecutionEngine J W × Bool
  start_trader_for c symbol loads =
      if loads
      then (
        record c {
          trader = some (record { symbol = symbol; total_profit = nought; opened = false });
          accounted_profit = nought;
          trader_active = true;
        },
        true,
      )
      else (c, false)

  -- The thread of the trader returns; the trader stays.
  unfoldable pub trader_returns : ExecutionEngine J W → ExecutionEngine J W
  trader_returns c = record c { trader_active = false }

  -- The end of `apply_runtime_control`, where the generation is only kept if no exception is thrown.
  unfoldable pub applied : ℕ → ExecutionEngine J W × Bool → ExecutionEngine J W × Bool
  applied generation (c, true) = (record c { applied_control_generation = generation }, true)
  applied generation (c, false) = (c, false)

  unfoldable pub apply_runtime_control :
      ExecutionEngine J W → List W → Bool → ExecutionEngine J W × Bool
  apply_runtime_control c late loads =
      let generation = c.control.generation in
      let restart_symbol =
        if not c.control.auto_symbol && not (str_eq c.control.manual_symbol "")
        then c.control.manual_symbol
        else c.current_symbol in
      if generation == c.applied_control_generation
      then (c, true)
      else if position_open c.trader
      then (c, true)
      else (let stopped = if has_trader c.trader then stop_trader c late else c in
          applied generation (
            if not (str_eq restart_symbol "")
            then start_trader_for stopped restart_symbol loads
            else (stopped, true)))

  -- The booking in `run_main_loop`, up to the assignment.
  unfoldable pub account_in : ExecutionEngine J W → Option (Trader W) → ExecutionEngine J W
  account_in c none = record c { phase = controlling }
  account_in c (some t) =
      let delta = t.total_profit ⊖ c.accounted_profit in
      if not (d.eq delta nought)
      then record c {
        paper_account = apply_realized_profit c.paper_account delta;
        phase = recording t.total_profit;
      }
      else record c { phase = controlling }

  -- The thread of `run_main_loop` up to its next phase; an exception ends the loop and clears `running`.
  unfoldable pub main_step_in :
      ExecutionEngine J W → MainPhase W → List W → Bool → ExecutionEngine J W
  main_step_in c controlling late loads =
      let (after, returned) = apply_runtime_control c late loads in
      if returned then record after { phase = booking } else record after { running = false }
  main_step_in c booking late loads = account_in c c.trader
  main_step_in c (recording total) late loads = record c {
    accounted_profit = total;
    phase = controlling;
  }

  abbrev pub main_step : ExecutionEngine J W → List W → Bool → ExecutionEngine J W
  main_step c late loads = main_step_in c c.phase late loads

  -- The handler that the scanner calls.
  unfoldable pub on_top_changed : ExecutionEngine J W → String → ExecutionEngine J W
  on_top_changed c symbol =
      if not c.control.auto_symbol || c.trader_active
      then c
      else record c { pending_scanner_symbol = symbol }

  -- A round of `monitor_scanner` once its wait has ended.
  unfoldable pub monitor_round : ExecutionEngine J W → Bool → ExecutionEngine J W
  monitor_round c loads =
      let symbol =
        if not c.control.auto_symbol then c.control.manual_symbol else c.pending_scanner_symbol in
      let taken : ExecutionEngine J W = record c { pending_scanner_symbol = "" } in
      if not c.running
      then c
      else if str_eq symbol "" || c.trader_active
      then taken
      else (let (after, returned) =
            start_trader_for (record taken { current_symbol = symbol }) symbol loads in
          if returned then after else record after { running = false })

  -- The changes of `stop`, before and after which the other threads are joined.
  unfoldable pub stop_engine : ExecutionEngine J W → List W → ExecutionEngine J W
  stop_engine c late = stop_trader (record c { running = false }) late
