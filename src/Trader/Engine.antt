-- ===== src/Trader/Engine.antt =====
-- src/sentum/trader/TradeEngine.cpp and TradeEngine.hpp. The strategy's state is in `strategy`, the
-- repository of closed trades in `history`; writing to the repository is a parameter that may throw. The
-- logs and the dashboard, which nothing here reads back, are left out. `wall` is the reading of the system
-- clock, `now` that of the engine's own clock, which in a replay is another one.
pub mod Entry
pub mod Exit
pub mod Books
pub mod Guards
use sentum.Prelude.{
  ℕ, ◌+◌, ◌/◌, String, Bool, true, false, not, ◌&&◌, ◌||◌, List, [], ◌∷◌, ◌++◌, if◌then◌else◌, leb,
  length, ◌==◌, Option, none, some,
}
use sentum.Prelude.Text.{concat}
use sentum.Prelude.Dict.{str_eq}
use sentum.Clock.{from_ms, from_seconds, older_than, aged}
use sentum.Float.{Double, ◌⊕◌, ◌⊖◌, ◌⊗◌, ◌⊘◌, lt, le, gt, ge, nought, one, from_size}
use sentum.Market.Types.{MarketEvent, new_event, trade}
use sentum.Strategy.Types.{TradeAction, is_buy, StrategySignal, IStrategy}
use sentum.Risk.Config.{RiskConfig}
use sentum.Risk.Entry.{RiskDecision, approve_entry}
use sentum.Order.Types.{Side, buy, sell, Request, Snapshot, exchange_confirmed_fill}
use sentum.Order.Manager.{Result, ok, throw, logic_error}
use sentum.Execution.Simulated.{
  SimulatedVenue, new_venue, start, stop, set_market, set_fill_model, submit,
}
use sentum.Trader.Position.{TradePosition, new_position}
use sentum.Trader.Control.{RuntimeControl, consume_manual_close}

-- `networked` is `api != nullptr`.
pub record TradeEngine (S H W : Type 0) : Type 0 where
  pub symbol : String
  pub networked : Bool
  pub risk : RiskConfig W
  pub position : TradePosition W
  pub total_profit : W
  pub win_count : ℕ
  pub lose_count : ℕ
  pub strategy : S
  pub venue : SimulatedVenue W
  pub history : H
  pub completed : List (TradePosition W)
  pub last_exit : ℕ
  pub latest_price : W
  pub price_queue : List (MarketEvent W)

-- What the engine uses of code that is not modelled: `std::to_string` of an integer, and
-- `TradeHistoryRepository::save`.
pub record Services (H W : Type 0) : Type 0 where
  pub decimal : ℕ → String
  pub save : H → TradePosition W → Result H

unfoldable pub pop_front {ℓ} : {A : Type ℓ} → List A → List A
pop_front [] = []
pop_front (x ∷ xs) = xs

abbrev pub max_queue_size : ℕ
max_queue_size = 4096

-- The position with the extremes and the trailing stop moved to a price.
unfoldable pub trailed : {W : Type 0} ⦃d : Double W⦄ → TradePosition W → W → TradePosition W
trailed p price =
    let higher = gt price p.highest_price in
    record p {
      highest_price = if higher then price else p.highest_price;
      stop_loss_price =
          if higher && p.trailing_sl_enabled
          then price ⊗ (one ⊖ p.trailing_sl_percent)
          else p.stop_loss_price;
      lowest_price = if lt price p.lowest_price then price else p.lowest_price;
    }

-- `event ? strategy->on_event(*event) : strategy->on_price(price, now)`.
abbrev pub ask :
    {S W : Type 0} → IStrategy S W → S → W → ℕ → Option (MarketEvent W) → S × StrategySignal W
ask strategy s price now none = strategy.on_price s price now
ask strategy s price now (some event) = strategy.on_event s event

module _ {S H W : Type 0} ⦃d : Double W⦄ where
  -- The replay constructor, with `initialize_components`.
  abbrev pub new_engine : String → RiskConfig W → S → H → TradeEngine S H W
  new_engine symbol risk strategy history =
      let named = if false then "paper" else "replay" in
      record {
        symbol = symbol;
        networked = false;
        risk = risk;
        position = new_position;
        total_profit = nought;
        win_count = 0;
        lose_count = 0;
        strategy = strategy;
        venue = start (set_fill_model (new_venue named) risk.spread_percent risk.slippage_percent);
        history = history;
        completed = [];
        last_exit = 0;
        latest_price = nought;
        price_queue = [];
      }

  unfoldable pub enqueue_price : TradeEngine S H W → W → ℕ → TradeEngine S H W
  enqueue_price e price now =
      let event : MarketEvent W = record new_event {
        type = trade;
        symbol = e.symbol;
        timestamp = now;
        price = price;
        close = price;
      } in
      let queue =
        if leb max_queue_size (length e.price_queue)
        then pop_front e.price_queue
        else e.price_queue in
      record e { latest_price = price; price_queue = queue ++ (event ∷ []) }

  -- The position with its exit, and what it earned.
  unfoldable pub exited : TradeEngine S H W → Snapshot W → String → TradePosition W
  exited e fill reason =
      let p = e.position in
      let gross = (fill.average_fill_price ⊖ p.entry_price) ⊗ p.quantity in
      let fee = fill.average_fill_price ⊗ p.quantity ⊗ e.risk.sell_fee_percent in
      record p {
        exit_price = fill.average_fill_price;
        exit_time = fill.updated_at;
        close_reason = reason;
        stop_loss_triggered = str_eq reason "stop_loss";
        take_profit_triggered = str_eq reason "take_profit";
        gross_profit = gross;
        fee_exit = fee;
        net_profit = gross ⊖ p.fee_entry ⊖ fee;
      }

  -- `total_profit`, the counters and the position, which are set before the trade is saved.
  unfoldable pub counted : TradeEngine S H W → TradePosition W → TradeEngine S H W
  counted e p =
      let won = ge p.net_profit nought in
      record e {
        position = p;
        total_profit = e.total_profit ⊕ p.net_profit;
        win_count = if won then e.win_count + 1 else e.win_count;
        lose_count = if won then e.lose_count else e.lose_count + 1;
      }

  -- The end of `close_position`, from the answer of `history->save` on.
  unfoldable pub settle :
      IStrategy S W
      → TradeEngine S H W
      → TradePosition W
      → Result H
      → TradeEngine S H W × Result TradeAction
  settle strategy e p (throw x) = (e, throw x)
  settle strategy e p (ok history) = (
    record e {
      history = history;
      completed = e.completed ++ (p ∷ []);
      last_exit = p.exit_time;
      position = record p { opened = false };
      strategy = strategy.reset e.strategy;
    },
    ok TradeAction.sell,
  )

  -- The position that a purchase opens.
  unfoldable pub entered :
      TradeEngine S H W → String → StrategySignal W → RiskDecision W → Snapshot W → TradePosition W
  entered e source signal decision fill = record new_position {
    opened = true;
    simulated = true;
    risk_approved = true;
    symbol = e.symbol;
    source = source;
    strategy = signal.strategy;
    signal_reason = signal.reason;
    risk_reason = decision.reason;
    reference_price = signal.reference_price;
    entry_price = fill.average_fill_price;
    executed_price = fill.average_fill_price;
    entry_time = fill.updated_at;
    signal_time = signal.created_at;
    quantity = fill.executed_quantity;
    highest_price = fill.average_fill_price;
    lowest_price = fill.average_fill_price;
    stop_loss_price = fill.average_fill_price ⊗ (one ⊖ e.risk.stop_loss_percent);
    take_profit_price = fill.average_fill_price ⊗ (one ⊕ e.risk.take_profit_percent);
    risk_per_trade = e.risk.risk_per_trade;
    capital_at_risk = e.risk.max_total_capital ⊗ e.risk.risk_per_trade;
    stop_loss_percent = e.risk.stop_loss_percent;
    take_profit_percent = e.risk.take_profit_percent;
    trailing_sl_enabled = e.risk.trailing_sl_enabled;
    trailing_sl_percent = e.risk.trailing_sl_percent;
    buy_fee_percent = e.risk.buy_fee_percent;
    sell_fee_percent = e.risk.sell_fee_percent;
    fee_entry = fill.average_fill_price ⊗ fill.executed_quantity ⊗ e.risk.buy_fee_percent;
  }

  abbrev pub source_of : TradeEngine S H W → String
  source_of e = if e.networked then "binance-websocket" else "replay"

  module _ (services : Services H W) where
    abbrev pub order_request : TradeEngine S H W → Side → W → ℕ → String → Request W
    order_request e side quantity now purpose = record {
      symbol = e.symbol;
      side = side;
      quantity = quantity;
      client_order_id = concat "sentum-" (
          concat e.symbol
            (concat "-" (concat purpose (concat "-" (services.decimal (now / 1000))))));
    }

    unfoldable pub execute :
        TradeEngine S H W → Side → W → W → ℕ → String → TradeEngine S H W × Result (Snapshot W)
    execute e side quantity price now purpose =
        let venue = set_market e.venue price now in
        let answer = submit venue (order_request e side quantity now purpose) in
        (record e { venue = answer.0 }, answer.1)

    -- `close_position` from the answer of `execute` on.
    unfoldable pub conclude :
        IStrategy S W
        → TradeEngine S H W
        → Result (Snapshot W)
        → String
        → TradeEngine S H W × Result TradeAction
    conclude strategy e (throw x) reason = (e, throw x)
    conclude strategy e (ok fill) reason =
        if not (exchange_confirmed_fill fill)
        then (e, ok TradeAction.none)
        else (let p = exited e fill reason in
            settle strategy (counted e p) p (services.save e.history p))

    unfoldable pub close_position :
        IStrategy S W → TradeEngine S H W → W → String → ℕ → TradeEngine S H W × Result TradeAction
    close_position strategy e market_price reason now =
        let (e, answer) = execute e sell e.position.quantity market_price now "sell" in
        conclude strategy e answer reason

    -- An entry from the answer of `execute` on.
    unfoldable pub take :
        TradeEngine S H W
        → StrategySignal W
        → RiskDecision W
        → String
        → Result (Snapshot W)
        → TradeEngine S H W × Result TradeAction
    take e signal decision source (throw x) = (e, throw x)
    take e signal decision source (ok fill) =
        if not (exchange_confirmed_fill fill)
        then (e, ok TradeAction.none)
        else (record e { position = entered e source signal decision fill }, ok TradeAction.buy)

    -- The part of `evaluate_at` for a flat engine, from the strategy's signal on.
    unfoldable pub enter :
        TradeEngine S H W
        → StrategySignal W
        → W
        → ℕ
        → ℕ
        → String
        → TradeEngine S H W × Result TradeAction
    enter e signal price now wall source =
        if not (is_buy signal.action)
        then (e, ok TradeAction.none)
        else (let decision = approve_entry e.risk signal price now e.last_exit wall in
            if not decision.approved
            then (e, ok TradeAction.none)
            else (let (e, answer) = execute e buy decision.quantity price now "buy" in
                take e signal decision source answer))

    -- The part of `evaluate_at` for an open position.
    unfoldable pub watch :
        IStrategy S W → TradeEngine S H W → W → ℕ → TradeEngine S H W × Result TradeAction
    watch strategy e price now =
        let p = trailed e.position price in
        let e = record e { position = p } in
        if le price p.stop_loss_price
        then close_position strategy e price "stop_loss" now
        else if ge price p.take_profit_price
        then close_position strategy e price "take_profit" now
        else if aged now p.entry_time (from_seconds e.risk.max_holding_seconds)
        then close_position strategy e price "maximum_holding_time" now
        else (e, ok TradeAction.none)

    unfoldable pub evaluate_at :
        {J : Type 0}
        → IStrategy S W
        → TradeEngine S H W
        → RuntimeControl J
        → W
        → ℕ
        → ℕ
        → String
        → Option (MarketEvent W)
        → RuntimeControl J × (TradeEngine S H W × Result TradeAction)
    evaluate_at strategy e control price now wall source event =
        if e.position.opened
        then (let (cleared, requested) = consume_manual_close control in
            if requested
            then (cleared, close_position strategy e price "manual_close" now)
            else (cleared, watch strategy e price now))
        else (let (cleared, _) = consume_manual_close control in
            if cleared.entries_paused
            then (cleared, (e, ok TradeAction.none))
            else (let (next, signal) = ask strategy e.strategy price now event in
                (cleared, enter (record e { strategy = next }) signal price now wall source)))

    unfoldable pub process_event :
        {J : Type 0}
        → IStrategy S W
        → TradeEngine S H W
        → RuntimeControl J
        → MarketEvent W
        → ℕ
        → ℕ
        → RuntimeControl J × (TradeEngine S H W × Result TradeAction)
    process_event strategy e control event now wall =
        if not (str_eq event.symbol e.symbol) || le event.price nought
        then (control, (e, ok TradeAction.none))
        else if older_than now event.timestamp (from_ms e.risk.max_data_age_ms)
        then (control, (e, ok TradeAction.none))
        else evaluate_at strategy (record e { latest_price = event.price }) control event.price
            event.timestamp wall (source_of e) (some event)

    abbrev pub evaluate :
        {J : Type 0}
        → IStrategy S W
        → TradeEngine S H W
        → RuntimeControl J
        → W
        → ℕ
        → ℕ
        → RuntimeControl J × (TradeEngine S H W × Result TradeAction)
    evaluate strategy e control price now wall =
        evaluate_at strategy e control price now wall (source_of e) none

  abbrev pub get_total_trades : TradeEngine S H W → ℕ
  get_total_trades e = e.win_count + e.lose_count

  abbrev pub get_winrate_percent : TradeEngine S H W → W
  get_winrate_percent e =
      let total = e.win_count + e.lose_count in
      if total == 0 then nought else (from_size e.win_count ⊘ from_size total) ⊗ from_size 100

  abbrev pub get_average_profit : TradeEngine S H W → W
  get_average_profit e =
      let total = e.win_count + e.lose_count in
      if total == 0 then nought else e.total_profit ⊘ from_size total
