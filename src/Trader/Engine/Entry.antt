-- ===== src/Trader/Engine/Entry.antt =====
-- src/sentum/trader/TradeEngine.cpp: what one call of `evaluate_at` or `process_event` may do.
use sentum.Prelude.{
  ℕ, ◌≡◌, refl, ap, ◌∙◌, if-elim, ◌⊎◌, inl, inr, String, true, false, not, ◌||◌, [], ◌∷◌, ◌++◌,
  Option, some,
}
use sentum.Prelude.Dict.{str_eq}
use sentum.Clock.{from_seconds, aged, from_ms, older_than}
use sentum.Float.{Double, le, ge, nought}
use sentum.Strategy.Types.{TradeAction, IStrategy, StrategySignal, is_buy}
use sentum.Market.Types.{MarketEvent}
use sentum.Order.Types.{buy, Snapshot, exchange_confirmed_fill}
use sentum.Order.Manager.{Result, ok, throw, failed}
use sentum.Execution.Simulated.{submit, set_market}
use sentum.Risk.Entry.{RiskDecision, approve_entry}
use sentum.Trader.Control.{RuntimeControl}
use sentum.Trader.Position.{TradePosition}
use sentum.Trader.Engine.{
  TradeEngine, Services, order_request, execute, entered, take, close_position, trailed, watch,
  evaluate_at, enter, ask, process_event, source_of,
}
use sentum.Trader.Engine.Exit.{SameBooks, Counted, close_position_cases}

module _ {S H W : Type 0} ⦃d : Double W⦄ where
  -- A trade left the position: one more in the books.
  pub record Left (before after : TradeEngine S H W) (r : Result TradeAction) (p : TradePosition W)
      : Type 0 where
    pub sold : r ≡ ok TradeAction.sell
    pub was_open : before.position.opened ≡ true
    pub flat : after.position.opened ≡ false
    pub counts : Counted before after p
    pub archived : after.completed ≡ before.completed ++ (p ∷ [])

  -- A trade was counted, and saving it failed.
  pub record Stuck (before after : TradeEngine S H W) (r : Result TradeAction) (p : TradePosition W)
      : Type 0 where
    pub thrown : failed r ≡ true
    pub was_open : before.position.opened ≡ true
    pub open_still : after.position.opened ≡ true
    pub held : after.position ≡ p
    pub counts : Counted before after p
    pub unarchived : after.completed ≡ before.completed

  -- A position was opened.
  pub record Opened (before after : TradeEngine S H W) (r : Result TradeAction) : Type 0 where
    pub bought : r ≡ ok TradeAction.buy
    pub was_flat : before.position.opened ≡ false
    pub is_open : after.position.opened ≡ true
    pub books : SameBooks before after

  -- Nothing was traded.
  pub record Idle (before after : TradeEngine S H W) (r : Result TradeAction) : Type 0 where
    pub quiet : (r ≡ ok TradeAction.none) ⊎ (failed r ≡ true)
    pub unchanged : after.position.opened ≡ before.position.opened
    pub books : SameBooks before after

  abbrev pub Moved : TradeEngine S H W → TradeEngine S H W → Result TradeAction → Type 0
  Moved before after r =
      ((p : TradePosition W) × Left before after r p)
      ⊎ (((p : TradePosition W) × Stuck before after r p)
          ⊎ (Opened before after r ⊎ Idle before after r))

  unchanged_books : (e : TradeEngine S H W) → SameBooks e e
  unchanged_books e = record {
    same_total = refl;
    same_wins = refl;
    same_losses = refl;
    same_completed = refl;
    same_exit = refl;
  }

  pub idle : (e : TradeEngine S H W) → Moved e e (ok TradeAction.none)
  idle e =
      inr (inr (inr (record { quiet = inl refl; unchanged = refl; books = unchanged_books e })))

  books_priced :
      (e after : TradeEngine S H W) (price : W)
      → SameBooks (record e { latest_price = price }) after
      → SameBooks e after
  books_priced e after price b = record {
    same_total = b.same_total;
    same_wins = b.same_wins;
    same_losses = b.same_losses;
    same_completed = b.same_completed;
    same_exit = b.same_exit;
  }

  from_priced :
      (e after : TradeEngine S H W) (price : W) (r : Result TradeAction)
      → Moved (record e { latest_price = price }) after r
      → Moved e after r
  from_priced e after price r (inl (p, m)) = inl (
    p,
    record {
      sold = m.sold;
      was_open = m.was_open;
      flat = m.flat;
      counts = record { total = m.counts.total; wins = m.counts.wins; losses = m.counts.losses };
      archived = m.archived;
    },
  )
  from_priced e after price r (inr (inl (p, m))) = inr (
      inl (
        p,
        record {
          thrown = m.thrown;
          was_open = m.was_open;
          open_still = m.open_still;
          held = m.held;
          counts = record {
            total = m.counts.total;
            wins = m.counts.wins;
            losses = m.counts.losses;
          };
          unarchived = m.unarchived;
        },
      ))
  from_priced e after price r (inr (inr (inl m))) = inr (
      inr (
        inl (record {
          bought = m.bought;
          was_flat = m.was_flat;
          is_open = m.is_open;
          books = books_priced e after price m.books;
        })))
  from_priced e after price r (inr (inr (inr m))) = inr (
      inr (
        inr (record {
          quiet = m.quiet;
          unchanged = m.unchanged;
          books = books_priced e after price m.books;
        })))

  module _ (services : Services H W) (strategy : IStrategy S W) where
    close_moves :
        (e : TradeEngine S H W) (p : TradePosition W) (price : W) (reason : String) (now : ℕ)
        → e.position.opened ≡ true
        → p.opened ≡ e.position.opened
        → let r = close_position services strategy (record e { position = p }) price reason now in
          Moved e r.0 r.1
    close_moves e p price reason now held same =
        elim (close_position_cases services strategy (record e { position = p }) price reason now) [
          | inl (q, s) ↦ inl (
            q,
            record {
              sold = s.sold;
              was_open = held;
              flat = ap (λ x. x.opened) s.flat;
              counts = record {
                total = s.counts.total;
                wins = s.counts.wins;
                losses = s.counts.losses;
              };
              archived = s.archived;
            },
          )
          | inr (inl (q, s)) ↦ inr (
              inl (
                q,
                record {
                  thrown = s.thrown;
                  was_open = held;
                  open_still = ap (λ x. x.opened) s.held ∙ s.still ∙ same ∙ held;
                  held = s.held;
                  counts = record {
                    total = s.counts.total;
                    wins = s.counts.wins;
                    losses = s.counts.losses;
                  };
                  unarchived = s.unarchived;
                },
              ))
          | inr (inr s) ↦ inr (
              inr (
                inr (record {
                  quiet = s.idle;
                  unchanged = ap (λ x. x.opened) s.kept ∙ same;
                  books = record {
                    same_total = s.books.same_total;
                    same_wins = s.books.same_wins;
                    same_losses = s.books.same_losses;
                    same_completed = s.books.same_completed;
                    same_exit = s.books.same_exit;
                  };
                })))
        ]

    trailed-opened : (p : TradePosition W) (price : W) → (trailed p price).opened ≡ p.opened
    unfolding trailed
    trailed-opened p price = refl

    watch_moves :
        (e : TradeEngine S H W) (price : W) (now : ℕ)
        → e.position.opened ≡ true
        → let r = watch services strategy e price now in Moved e r.0 r.1
    unfolding watch
    watch_moves e price now held =
        let p = trailed e.position price in
        let same = trailed-opened e.position price in
        let Fine : TradeEngine S H W × Result TradeAction → Type 0 = λ r. Moved e r.0 r.1 in
        let close : (reason : String)
            → Fine (close_position services strategy (record e { position = p }) price reason now) =
          λ reason. close_moves e p price reason now held same in
        let stay : Fine (record e { position = p }, ok TradeAction.none) = inr (
          inr (
            inr (record {
              quiet = inl refl;
              unchanged = same;
              books = record {
                same_total = refl;
                same_wins = refl;
                same_losses = refl;
                same_completed = refl;
                same_exit = refl;
              };
            }))) in
        if-elim Fine (le price p.stop_loss_price) (λ _. close "stop_loss")
          (λ _.
            if-elim Fine (ge price p.take_profit_price) (λ _. close "take_profit")
              (λ _.
                if-elim Fine (aged now p.entry_time (from_seconds e.risk.max_holding_seconds))
                  (λ _. close "maximum_holding_time") (λ _. stay)))

    take_moves :
        (before e : TradeEngine S H W) (signal : StrategySignal W) (decision : RiskDecision W)
        (source : String) (answer : Result (Snapshot W))
        → before.position.opened ≡ false
        → SameBooks before e
        → e.position ≡ before.position
        → let r = take services e signal decision source answer in Moved before r.0 r.1
    unfolding take entered
    take_moves before e signal decision source (throw x) flat books kept = inr (
        inr (inr (record { quiet = inr refl; unchanged = ap (λ x. x.opened) kept; books = books })))
    take_moves before e signal decision source (ok fill) flat books kept =
        let Fine : TradeEngine S H W × Result TradeAction → Type 0 = λ r. Moved before r.0 r.1 in
        if-elim Fine (not (exchange_confirmed_fill fill))
          (λ _. inr (
            inr (
              inr
                (record { quiet = inl refl; unchanged = ap (λ x. x.opened) kept; books = books }))))
          (λ _. inr (
            inr (
              inl (record {
                bought = refl;
                was_flat = flat;
                is_open = refl;
                books = record {
                  same_total = books.same_total;
                  same_wins = books.same_wins;
                  same_losses = books.same_losses;
                  same_completed = books.same_completed;
                  same_exit = books.same_exit;
                };
              }))))

    enter_moves :
        (before : TradeEngine S H W) (next : S) (signal : StrategySignal W) (price : W)
        (now wall : ℕ) (source : String)
        → before.position.opened ≡ false
        → let r = enter services (record before { strategy = next }) signal price now wall source in
          Moved before r.0 r.1
    unfolding enter execute
    enter_moves before next signal price now wall source flat =
        let e : TradeEngine S H W = record before { strategy = next } in
        let decision = approve_entry e.risk signal price now e.last_exit wall in
        let answer =
          submit (set_market e.venue price now)
            (order_request services e buy decision.quantity now "buy") in
        let Fine : TradeEngine S H W × Result TradeAction → Type 0 = λ r. Moved before r.0 r.1 in
        let still : Fine (e, ok TradeAction.none) = inr (
          inr (
            inr (record {
              quiet = inl refl;
              unchanged = refl;
              books = record {
                same_total = refl;
                same_wins = refl;
                same_losses = refl;
                same_completed = refl;
                same_exit = refl;
              };
            }))) in
        if-elim Fine (not (is_buy signal.action)) (λ _. still)
          (λ _.
            if-elim Fine (not decision.approved) (λ _. still)
              (λ _.
                take_moves before (record e { venue = answer.0 }) signal decision source answer.1
                  flat
                  (record {
                    same_total = refl;
                    same_wins = refl;
                    same_losses = refl;
                    same_completed = refl;
                    same_exit = refl;
                  })
                  refl))

    -- One call closes the open position and books the trade once, or counts a trade that it could not save,
    -- or opens a position in a flat engine, or trades nothing.
    pub evaluate_at_moves :
        {J : Type 0} (e : TradeEngine S H W) (control : RuntimeControl J) (price : W) (now wall : ℕ)
        (source : String) (event : Option (MarketEvent W))
        → let r = evaluate_at services strategy e control price now wall source event in
          Moved e r.1.0 r.1.1
    unfolding evaluate_at
    evaluate_at_moves {J} e control price now wall source event =
        let Fine : RuntimeControl J × (TradeEngine S H W × Result TradeAction) → Type 0 =
          λ r. Moved e r.1.0 r.1.1 in
        let (next, signal) = ask strategy e.strategy price now event in
        if-elim Fine e.position.opened
          (λ held.
            if-elim Fine control.manual_close
              (λ _. close_moves e e.position price "manual_close" now held refl)
              (λ _. watch_moves e price now held))
          (λ flat.
            if-elim Fine control.entries_paused (λ _. idle e)
              (λ _. enter_moves e next signal price now wall source flat))

    pub process_event_moves :
        {J : Type 0} (e : TradeEngine S H W) (control : RuntimeControl J) (event : MarketEvent W)
        (now wall : ℕ)
        → let r = process_event services strategy e control event now wall in Moved e r.1.0 r.1.1
    unfolding process_event
    process_event_moves {J} e control event now wall =
        let Fine : RuntimeControl J × (TradeEngine S H W × Result TradeAction) → Type 0 =
          λ r. Moved e r.1.0 r.1.1 in
        let priced : TradeEngine S H W = record e { latest_price = event.price } in
        let next =
          evaluate_at services strategy priced control event.price event.timestamp wall
            (source_of priced) (some event) in
        if-elim Fine (not (str_eq event.symbol e.symbol) || le event.price nought) (λ _. idle e)
          (λ _.
            if-elim Fine (older_than now event.timestamp (from_ms e.risk.max_data_age_ms))
              (λ _. idle e)
              (λ _. from_priced e next.1.0 event.price next.1.1 (
                evaluate_at_moves priced control event.price event.timestamp wall (source_of priced)
                  (some event))))
