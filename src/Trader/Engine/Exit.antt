-- ===== src/Trader/Engine/Exit.antt =====
-- src/sentum/trader/TradeEngine.cpp: `close_position` and the exits of `evaluate_at`.
use sentum.Prelude.{
  ℕ, ◌+◌, ◌≡◌, refl, ap, Bool-cases, ◌⊎◌, inl, inr, String, true, false, [], ◌∷◌, ◌++◌,
  if◌then◌else◌,
}
use sentum.Float.{Double, ◌⊕◌, ge, nought}
use sentum.Strategy.Types.{TradeAction, IStrategy}
use sentum.Order.Types.{sell, Snapshot, exchange_confirmed_fill}
use sentum.Order.Manager.{Result, ok, throw, failed}
use sentum.Execution.Simulated.{submit, set_market}
use sentum.Trader.Position.{TradePosition}
use sentum.Trader.Engine.{
  TradeEngine, Services, order_request, execute, exited, counted, settle, conclude, close_position,
}

-- How one call may change the engine's books: the trades it has closed, its profit and its counters.
pub record SameBooks {S H W : Type 0} (before after : TradeEngine S H W) : Type 0 where
  pub same_total : after.total_profit ≡ before.total_profit
  pub same_wins : after.win_count ≡ before.win_count
  pub same_losses : after.lose_count ≡ before.lose_count
  pub same_completed : after.completed ≡ before.completed
  pub same_exit : after.last_exit ≡ before.last_exit

module _ {S H W : Type 0} ⦃d : Double W⦄ where
  -- The counters have the trade in them.
  pub record Counted (before after : TradeEngine S H W) (p : TradePosition W) : Type 0 where
    pub total : after.total_profit ≡ before.total_profit ⊕ p.net_profit
    pub wins :
        after.win_count
        ≡ (if ge p.net_profit nought then before.win_count + 1 else before.win_count)
    pub losses :
        after.lose_count
        ≡ (if ge p.net_profit nought then before.lose_count else before.lose_count + 1)

  -- A closed trade: it is in the books once, and the position is closed.
  pub record Sold (reset : S → S) (before after : TradeEngine S H W) (r : Result TradeAction)
      (p : TradePosition W) : Type 0 where
    pub sold : r ≡ ok TradeAction.sell
    pub counts : Counted before after p
    pub archived : after.completed ≡ before.completed ++ (p ∷ [])
    pub flat : after.position ≡ record p { opened = false }
    pub exit_noted : after.last_exit ≡ p.exit_time
    pub fresh : after.strategy ≡ reset before.strategy

  -- A sale that the repository did not take: it is counted, but not archived, and the position stays.
  pub record Unsaved (before after : TradeEngine S H W) (r : Result TradeAction)
      (p : TradePosition W) : Type 0 where
    pub thrown : failed r ≡ true
    pub counts : Counted before after p
    pub unarchived : after.completed ≡ before.completed
    pub exit_kept : after.last_exit ≡ before.last_exit
    pub held : after.position ≡ p
    pub still : p.opened ≡ before.position.opened

  -- No sale.
  pub record Unsold (before after : TradeEngine S H W) (r : Result TradeAction) : Type 0 where
    pub idle : (r ≡ ok TradeAction.none) ⊎ (failed r ≡ true)
    pub books : SameBooks before after
    pub kept : after.position ≡ before.position

  counted-Counted :
      (before e : TradeEngine S H W) (p : TradePosition W)
      → SameBooks before e
      → Counted before (counted e p) p
  unfolding counted
  counted-Counted before e p books = record {
    total = ap (λ t. t ⊕ p.net_profit) books.same_total;
    wins = rw books.same_wins refl;
    losses = rw books.same_losses refl;
  }

  exited-opened :
      (before e : TradeEngine S H W) (fill : Snapshot W) (reason : String)
      → e.position ≡ before.position
      → (exited e fill reason).opened ≡ before.position.opened
  unfolding exited
  exited-opened before e fill reason kept = ap (λ p. p.opened) kept

  settle_cases :
      (strategy : IStrategy S W) (before e : TradeEngine S H W) (p : TradePosition W)
      (answer : Result H)
      → Counted before e p
      → e.completed ≡ before.completed
      → e.last_exit ≡ before.last_exit
      → e.strategy ≡ before.strategy
      → e.position ≡ p
      → p.opened ≡ before.position.opened
      → let r = settle strategy e p answer in
        Sold strategy.reset before r.0 r.1 p ⊎ Unsaved before r.0 r.1 p
  unfolding settle
  settle_cases strategy before e p (throw x) counts same exits fresh held still = inr (record {
    thrown = refl;
    counts = counts;
    unarchived = same;
    exit_kept = exits;
    held = held;
    still = still;
  })
  settle_cases strategy before e p (ok h) counts same exits fresh held still = inl (record {
    sold = refl;
    counts = record { total = counts.total; wins = counts.wins; losses = counts.losses };
    archived = ap (λ c. c ++ (p ∷ [])) same;
    flat = refl;
    exit_noted = refl;
    fresh = ap strategy.reset fresh;
  })

  module _ (services : Services H W) (strategy : IStrategy S W) where
    conclude_cases :
        (before e : TradeEngine S H W) (answer : Result (Snapshot W)) (reason : String)
        → SameBooks before e
        → e.strategy ≡ before.strategy
        → e.position ≡ before.position
        → let r = conclude services strategy e answer reason in
          ((p : TradePosition W) × Sold strategy.reset before r.0 r.1 p)
          ⊎ (((p : TradePosition W) × Unsaved before r.0 r.1 p) ⊎ Unsold before r.0 r.1)
    unfolding conclude counted
    conclude_cases before e (throw x) reason books fresh kept =
        inr (inr (record { idle = inr refl; books = books; kept = kept }))
    conclude_cases before e (ok fill) reason books fresh kept =
        let p = exited e fill reason in
        elim (Bool-cases (exchange_confirmed_fill fill)) [
          | inl bought ↦
              rw bought
                (elim (settle_cases strategy before (counted e p) p (services.save e.history p)
                  (counted-Counted before e p books) books.same_completed books.same_exit fresh refl
                  (exited-opened before e fill reason kept)) [
                    | inl closed ↦ inl (p, closed)
                    | inr stuck ↦ inr (inl (p, stuck))
                  ])
          | inr unfilled ↦
              rw unfilled (inr (inr (record { idle = inl refl; books = books; kept = kept })))
        ]

    -- Closing a position sells it into the books once, or counts a sale that could not be saved, or changes
    -- nothing but the venue.
    pub close_position_cases :
        (e : TradeEngine S H W) (price : W) (reason : String) (now : ℕ)
        → let r = close_position services strategy e price reason now in
          ((p : TradePosition W) × Sold strategy.reset e r.0 r.1 p)
          ⊎ (((p : TradePosition W) × Unsaved e r.0 r.1 p) ⊎ Unsold e r.0 r.1)
    unfolding close_position execute
    close_position_cases e price reason now =
        let request = order_request services e sell e.position.quantity now "sell" in
        let answer = submit (set_market e.venue price now) request in
        conclude_cases e (record e { venue = answer.0 }) answer.1 reason
          (record {
            same_total = refl;
            same_wins = refl;
            same_losses = refl;
            same_completed = refl;
            same_exit = refl;
          })
          refl refl
