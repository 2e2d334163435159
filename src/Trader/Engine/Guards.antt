-- ===== src/Trader/Engine/Guards.antt =====
-- src/sentum/trader/TradeEngine.cpp: the guards of `process_event` and `evaluate_at`, and the trailing of
-- the stop.
use mathlib.Core.Path.{subst}
use sentum.Prelude.{
  ℕ, ◌≡◌, refl, sym, if-elim, ◌⊎◌, String, true, false, not, ◌||◌, arith, Option, some,
}
use sentum.Prelude.Dict.{str_eq}
use sentum.Clock.{from_ms, older_than}
use sentum.Float.{Double, IsFloat, le, nought, is_number}
use sentum.Float.Order.{le_of_lt, le_of_not_lt}
use sentum.Strategy.Types.{TradeAction, IStrategy, StrategySignal}
use sentum.Market.Types.{MarketEvent}
use sentum.Order.Manager.{Result, ok}
use sentum.Risk.Entry.{approve_entry}
use sentum.Trader.Control.{RuntimeControl}
use sentum.Trader.Position.{TradePosition}
use sentum.Trader.Engine.{
  TradeEngine, Services, trailed, evaluate_at, enter, ask, process_event, source_of,
}

module _ {S H W : Type 0} ⦃d : Double W⦄ (services : Services H W) where
  stale_entry :
      (e : TradeEngine S H W) (signal : StrategySignal W) (price : W) (now wall : ℕ)
      (source : String)
      → older_than wall now (from_ms e.risk.max_data_age_ms) ≡ true
      → enter services e signal price now wall source ≡ (e, ok TradeAction.none)
  unfolding enter approve_entry
  stale_entry e signal price now wall source old = ground arith

module _ {S H J W : Type 0} ⦃d : Double W⦄ (services : Services H W)
    (strategy : IStrategy S W) where
  -- A request to close a position is used up by the next evaluation, whether a position is open or not, and
  -- the operator's other settings stay: none leaks into a later position.
  pub evaluate_at_consumes :
      (e : TradeEngine S H W) (control : RuntimeControl J) (price : W) (now wall : ℕ)
      (source : String) (event : Option (MarketEvent W))
      → (evaluate_at services strategy e control price now wall source event).0
        ≡ record control { manual_close = false }
  unfolding evaluate_at
  evaluate_at_consumes e control price now wall source event =
      let Fine : RuntimeControl J × (TradeEngine S H W × Result TradeAction) → Type 0 =
        λ r. r.0 ≡ record control { manual_close = false } in
      if-elim Fine e.position.opened
        (λ _. if-elim Fine control.manual_close (λ _. refl) (λ _. refl))
        (λ _. if-elim Fine control.entries_paused (λ _. refl) (λ _. refl))

  -- An event of another symbol, without a price above 0 or older than the limit on the engine's clock
  -- changes neither the engine nor the control, and trades nothing.
  pub process_event_ignores :
      (e : TradeEngine S H W) (control : RuntimeControl J) (event : MarketEvent W) (now wall : ℕ)
      → (str_eq event.symbol e.symbol ≡ false)
        ⊎ ((le event.price nought ≡ true)
            ⊎ (older_than now event.timestamp (from_ms e.risk.max_data_age_ms) ≡ true))
      → process_event services strategy e control event now wall
        ≡ (control, (e, ok TradeAction.none))
  unfolding process_event
  process_event_ignores e control event now wall h = ground arith

  -- While entries are paused, a flat engine stays as it is: the strategy is not even asked.
  pub evaluate_at_paused :
      (e : TradeEngine S H W) (control : RuntimeControl J) (price : W) (now wall : ℕ)
      (source : String) (event : Option (MarketEvent W))
      → e.position.opened ≡ false
      → control.entries_paused ≡ true
      → (evaluate_at services strategy e control price now wall source event).1
        ≡ (e, ok TradeAction.none)
  unfolding evaluate_at
  evaluate_at_paused e control price now wall source event flat paused = ground arith

  -- The risk manager measures the age of a price by the system clock, also in a replay: an event that is
  -- older than the limit by that clock never opens a position, whatever the engine's own clock reads.
  pub replayed_entry_refused :
      (e : TradeEngine S H W) (control : RuntimeControl J) (event : MarketEvent W) (now wall : ℕ)
      → e.position.opened ≡ false
      → older_than wall event.timestamp (from_ms e.risk.max_data_age_ms) ≡ true
      → let r = process_event services strategy e control event now wall in
        (r.1.1 ≡ ok TradeAction.none) × (r.1.0.position ≡ e.position) × (r.1.0.venue ≡ e.venue)
  unfolding process_event evaluate_at
  replayed_entry_refused e control event now wall flat old =
      let priced : TradeEngine S H W = record e { latest_price = event.price } in
      let (next, signal) = ask strategy e.strategy event.price event.timestamp (some event) in
      let asked : TradeEngine S H W = record priced { strategy = next } in
      let Fine : RuntimeControl J × (TradeEngine S H W × Result TradeAction) → Type 0 = λ r.
        (r.1.1 ≡ ok TradeAction.none) × (r.1.0.position ≡ e.position) × (r.1.0.venue ≡ e.venue) in
      let cleared : RuntimeControl J = record control { manual_close = false } in
      let rejected : Fine (
        cleared,
        enter services asked signal event.price event.timestamp wall (source_of priced),
      ) =
        subst (λ r. Fine (cleared, r))
          (sym (
            stale_entry services asked signal event.price event.timestamp wall (source_of priced)
              old))
          (refl, refl, refl) in
      if-elim Fine (not (str_eq event.symbol e.symbol) || le event.price nought)
        (λ _. (refl, refl, refl))
        (λ _.
          if-elim Fine (older_than now event.timestamp (from_ms e.risk.max_data_age_ms))
            (λ _. (refl, refl, refl))
            (λ _.
              if-elim Fine e.position.opened (λ held. absurd (ground (arith, held, flat)))
                (λ _.
                  if-elim Fine control.entries_paused (λ _. (refl, refl, refl)) (λ _. rejected))))

module _ {W : Type 0} ⦃d : Double W⦄ (laws : IsFloat W) where
  -- The extremes of an open position only widen, and take the new price in.
  pub trailed_widens :
      (p : TradePosition W) (price : W)
      → is_number price ≡ true
      → is_number p.highest_price ≡ true
      → is_number p.lowest_price ≡ true
      → let q = trailed p price in
        (le p.highest_price q.highest_price ≡ true)
        × (le price q.highest_price ≡ true)
        × (le q.lowest_price p.lowest_price ≡ true)
        × (le q.lowest_price price ≡ true)
  unfolding trailed
  trailed_widens p price num high low = ground (
    arith,
    le_of_lt laws p.highest_price price,
    le_of_not_lt laws p.highest_price price,
    le_of_lt laws price p.lowest_price,
    le_of_not_lt laws price p.lowest_price,
    laws.number_of_le,
  )
