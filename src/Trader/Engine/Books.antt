-- ===== src/Trader/Engine/Books.antt =====
-- src/sentum/trader/TradeEngine.cpp: the loop of `run`, and the accounts over a whole run. Between two
-- events of the queue the operator may change the runtime control; the loop ends at the first exception.
use mathlib.Core.Path.{subst}
use sentum.Prelude.{
  ℕ, ◌+◌, ◌≡◌, refl, sym, ap, ◌∙◌, ◌⊎◌, inl, inr, Bool, true, false, not, ◌&&◌, List, [], ◌∷◌, ◌++◌,
  if◌then◌else◌, arith, Option, none, some, length, length-append,
}
use sentum.Float.{Double, ◌⊕◌, ge, nought}
use sentum.Strategy.Types.{TradeAction, IStrategy}
use sentum.Market.Types.{MarketEvent}
use sentum.Order.Manager.{Exception, Result, ok, throw, failed}
use sentum.Trader.Control.{RuntimeControl, pause_entries, request_manual_close}
use sentum.Trader.Position.{TradePosition}
use sentum.Trader.Engine.{TradeEngine, Services, evaluate, process_event, source_of}
use sentum.Trader.Engine.Exit.{SameBooks, Counted}
use sentum.Trader.Engine.Entry.{Moved, idle, evaluate_at_moves, process_event_moves}

-- One thing that happens to a running engine: an event with the readings of the two clocks, or a command.
pub data Input (W : Type 0) : Type 0 where
  event : MarketEvent W → ℕ → ℕ → Input W
  quote : W → ℕ → ℕ → Input W
  pause : Bool → Input W
  close_request : Input W

pub record Run (S H J W : Type 0) : Type 0 where
  pub control : RuntimeControl J
  pub engine : TradeEngine S H W
  pub actions : List TradeAction
  pub error : Option Exception

abbrev pub interrupted : Option Exception → Bool
interrupted none = false
interrupted (some x) = true

module _ {W : Type 0} ⦃d : Double W⦄ where
  -- The profits of closed trades, added in order to a total.
  unfoldable pub profits : W → List (TradePosition W) → W
  profits total [] = total
  profits total (p ∷ ps) = profits (total ⊕ p.net_profit) ps

  unfoldable pub winners : List (TradePosition W) → ℕ
  winners [] = 0
  winners (p ∷ ps) = let rest = winners ps in if ge p.net_profit nought then rest + 1 else rest

  profits-append :
      (total : W) (ps : List (TradePosition W)) (p : TradePosition W)
      → profits total (ps ++ (p ∷ [])) ≡ profits total ps ⊕ p.net_profit
  unfolding profits
  profits-append total [] p = refl
  profits-append total (q ∷ ps) p = profits-append (total ⊕ q.net_profit) ps p

  winners-append :
      (ps : List (TradePosition W)) (p : TradePosition W)
      → winners (ps ++ (p ∷ [])) ≡ (if ge p.net_profit nought then winners ps + 1 else winners ps)
  unfolding winners
  winners-append [] p = ground arith
  winners-append (q ∷ ps) p = ground (arith, winners-append ps p)

-- The sign that a position is open, against a list of what was done: buys and sells take turns.
unfoldable pub alternates : Bool → List TradeAction → Bool
alternates opened [] = true
alternates opened (TradeAction.buy ∷ actions) = not opened && alternates true actions
alternates opened (TradeAction.sell ∷ actions) = opened && alternates false actions
alternates opened (TradeAction.none ∷ actions) = alternates opened actions
alternates opened (TradeAction.hold ∷ actions) = false

sell_turn :
    (before after : Bool) (action : TradeAction) (rest : List TradeAction)
    → ok action ≡ ok TradeAction.sell
    → before ≡ true
    → after ≡ false
    → alternates after rest ≡ true
    → alternates before (action ∷ rest) ≡ true
unfolding alternates
sell_turn before after TradeAction.none rest r hb ha h = absurd (ground (arith, r))
sell_turn before after TradeAction.buy rest r hb ha h = absurd (ground (arith, r))
sell_turn before after TradeAction.sell rest r hb ha h =
    rw hb (ap (λ o. alternates o rest) (sym ha) ∙ h)
sell_turn before after TradeAction.hold rest r hb ha h = absurd (ground (arith, r))

buy_turn :
    (before after : Bool) (action : TradeAction) (rest : List TradeAction)
    → ok action ≡ ok TradeAction.buy
    → before ≡ false
    → after ≡ true
    → alternates after rest ≡ true
    → alternates before (action ∷ rest) ≡ true
unfolding alternates
buy_turn before after TradeAction.none rest r hb ha h = absurd (ground (arith, r))
buy_turn before after TradeAction.buy rest r hb ha h =
    rw hb (ap (λ o. alternates o rest) (sym ha) ∙ h)
buy_turn before after TradeAction.sell rest r hb ha h = absurd (ground (arith, r))
buy_turn before after TradeAction.hold rest r hb ha h = absurd (ground (arith, r))

idle_turn :
    (before after : Bool) (action : TradeAction) (rest : List TradeAction)
    → (ok action ≡ ok TradeAction.none) ⊎ (failed (ok action) ≡ true)
    → after ≡ before
    → alternates after rest ≡ true
    → alternates before (action ∷ rest) ≡ true
unfolding alternates
idle_turn before after TradeAction.none rest r same h = ap (λ o. alternates o rest) (sym same) ∙ h
idle_turn before after TradeAction.buy rest r same h = absurd (ground (arith, r))
idle_turn before after TradeAction.sell rest r same h = absurd (ground (arith, r))
idle_turn before after TradeAction.hold rest r same h = absurd (ground (arith, r))

module _ {S H W : Type 0} ⦃d : Double W⦄ where
  -- The books are those of a list of trades.
  pub record Accounts (e : TradeEngine S H W) (trades : List (TradePosition W)) : Type 0 where
    pub total : e.total_profit ≡ profits nought trades
    pub wins : e.win_count ≡ winners trades
    pub trade_count : e.win_count + e.lose_count ≡ length trades

  same-Accounts :
      (before after : TradeEngine S H W)
      → SameBooks before after
      → Accounts before before.completed
      → Accounts after after.completed
  same-Accounts before after b a = record {
    total = b.same_total ∙ a.total ∙ ap (profits nought) (sym b.same_completed);
    wins = b.same_wins ∙ a.wins ∙ ap winners (sym b.same_completed);
    trade_count =
        ap (λ n. n + after.lose_count) b.same_wins
        ∙ ap (λ n. before.win_count + n) b.same_losses
        ∙ a.trade_count
        ∙ ap length (sym b.same_completed);
  }

  more-Accounts :
      (before after : TradeEngine S H W) (p : TradePosition W)
      → Counted before after p
      → Accounts before before.completed
      → Accounts after (before.completed ++ (p ∷ []))
  more-Accounts before after p c a = record {
    total =
        c.total
        ∙ ap (λ t. t ⊕ p.net_profit) a.total
        ∙ sym (profits-append nought before.completed p);
    wins =
        c.wins
        ∙ ap (λ n. if ge p.net_profit nought then n + 1 else n) a.wins
        ∙ sym (winners-append before.completed p);
    trade_count =
        ground (arith, c.wins, c.losses, a.trade_count, length-append before.completed (p ∷ []));
  }

module _ {S H J W : Type 0} ⦃d : Double W⦄ (services : Services H W)
    (strategy : IStrategy S W) where
  abbrev pub step :
      RuntimeControl J
      → TradeEngine S H W
      → Input W
      → RuntimeControl J × (TradeEngine S H W × Result TradeAction)
  step control e (event ev now wall) = process_event services strategy e control ev now wall
  step control e (quote price now wall) = evaluate services strategy e control price now wall
  step control e (pause value) = (pause_entries control value, (e, ok TradeAction.none))
  step control e close_request = (request_manual_close control, (e, ok TradeAction.none))

  -- A call's result in front of the rest of the run, which an exception keeps from happening.
  unfoldable pub finish :
      RuntimeControl J → TradeEngine S H W → Result TradeAction → Run S H J W → Run S H J W
  finish control e (throw x) rest = record {
    control = control;
    engine = e;
    actions = [];
    error = some x;
  }
  finish control e (ok action) rest = record rest { actions = action ∷ rest.actions }

  unfoldable pub run : RuntimeControl J → TradeEngine S H W → List (Input W) → Run S H J W
  run control e [] = record { control = control; engine = e; actions = []; error = none }
  run control e (input ∷ inputs) =
      let (control, (e, r)) = step control e input in finish control e r (run control e inputs)

  step_moves :
      (control : RuntimeControl J) (e : TradeEngine S H W) (input : Input W)
      → let r = step control e input in Moved e r.1.0 r.1.1
  step_moves control e (event ev now wall) =
      process_event_moves services strategy e control ev now wall
  step_moves control e (quote price now wall) =
      evaluate_at_moves services strategy e control price now wall (source_of e) none
  step_moves control e (pause value) = idle e
  step_moves control e close_request = idle e

  finish-alternates :
      (control : RuntimeControl J) (before after : TradeEngine S H W) (r : Result TradeAction)
      (rest : Run S H J W)
      → Moved before after r
      → alternates after.position.opened rest.actions ≡ true
      → alternates before.position.opened (finish control after r rest).actions ≡ true
  unfolding finish alternates
  finish-alternates control before after (throw x) rest moved h = refl
  finish-alternates control before after (ok action) rest (inl (p, m)) h =
      sell_turn before.position.opened after.position.opened action rest.actions m.sold m.was_open
        m.flat h
  finish-alternates control before after (ok action) rest (inr (inl (p, m))) h =
      absurd (ground (arith, m.thrown))
  finish-alternates control before after (ok action) rest (inr (inr (inl m))) h =
      buy_turn before.position.opened after.position.opened action rest.actions m.bought m.was_flat
        m.is_open h
  finish-alternates control before after (ok action) rest (inr (inr (inr m))) h =
      idle_turn before.position.opened after.position.opened action rest.actions m.quiet m.unchanged
        h

  -- Over a run, whatever the strategy, the prices, the clocks and the operator do, purchases and sales take
  -- turns, starting from the position that is held.
  pub run-alternates :
      (control : RuntimeControl J) (e : TradeEngine S H W) (inputs : List (Input W))
      → alternates e.position.opened (run control e inputs).actions ≡ true
  unfolding run alternates
  run-alternates control e [] = refl
  run-alternates control e (input ∷ inputs) =
      let (next, (after, r)) = step control e input in
      finish-alternates next e after r (run next after inputs) (step_moves control e input)
        (run-alternates next after inputs)

  -- The books are those of the closed trades, or of one trade more: that of the position, which an exception
  -- kept from being closed.
  abbrev pub Settled : Run S H J W → Type 0
  Settled r =
      Accounts r.engine r.engine.completed
      ⊎ ((r.engine.position.opened ≡ true)
          × (interrupted r.error ≡ true)
          × Accounts r.engine (r.engine.completed ++ (r.engine.position ∷ [])))

  finish_settles :
      (control : RuntimeControl J) (before after : TradeEngine S H W) (r : Result TradeAction)
      (rest : Run S H J W)
      → Moved before after r
      → Accounts before before.completed
      → (Accounts after after.completed → Settled rest)
      → Settled (finish control after r rest)
  unfolding finish
  finish_settles control before after (throw x) rest (inl (p, m)) a h =
      absurd (ground (arith, m.sold))
  finish_settles control before after (throw x) rest (inr (inl (p, m))) a h = inr (
    m.open_still,
    refl,
    subst (λ c. Accounts after (c ++ (after.position ∷ []))) (sym m.unarchived)
        (subst (λ q. Accounts after (before.completed ++ (q ∷ []))) (sym m.held)
          (more-Accounts before after p m.counts a)),
  )
  finish_settles control before after (throw x) rest (inr (inr (inl m))) a h =
      inl (same-Accounts before after m.books a)
  finish_settles control before after (throw x) rest (inr (inr (inr m))) a h =
      inl (same-Accounts before after m.books a)
  finish_settles control before after (ok action) rest (inl (p, m)) a h =
      h (subst (Accounts after) (sym m.archived) (more-Accounts before after p m.counts a))
  finish_settles control before after (ok action) rest (inr (inl (p, m))) a h =
      absurd (ground (arith, m.thrown))
  finish_settles control before after (ok action) rest (inr (inr (inl m))) a h =
      h (same-Accounts before after m.books a)
  finish_settles control before after (ok action) rest (inr (inr (inr m))) a h =
      h (same-Accounts before after m.books a)

  -- Over a run from an engine whose total profit and counters are those of its closed trades, they are so
  -- at the end; or the run ended in an exception with the position open, and they are those of the closed
  -- trades and of the sale of this position, whose exit it already has.
  pub run_settles :
      (control : RuntimeControl J) (e : TradeEngine S H W) (inputs : List (Input W))
      → Accounts e e.completed
      → Settled (run control e inputs)
  unfolding run
  run_settles control e [] a = inl a
  run_settles control e (input ∷ inputs) a =
      let (next, (after, r)) = step control e input in
      finish_settles next e after r (run next after inputs) (step_moves control e input) a
        (run_settles next after inputs)
