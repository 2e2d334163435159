-- ===== src/Research/Portfolio/Accounts.antt =====
-- What the replay of a portfolio keeps count of.
use sentum.Prelude.{
  ℕ, suc, ◌+◌, ◌≡◌, refl, sym, ap, ◌∙◌, Bool, true, not, ◌&&◌, List, [], ◌∷◌, ◌++◌, leb, length,
  length-append, arith, if-elim,
}
use sentum.Prelude.Dict.{Dict}
use sentum.Float.{Double, ◌⊕◌, ◌⊗◌}
use native.Mathlib.Nat.{zero-add}
use sentum.Trader.Position.{TradePosition}
use sentum.Backtest.Drawdown.{equity_after}
use sentum.Risk.Portfolio.{PortfolioRiskConfig, PortfolioDecision, approve}
use sentum.Research.Portfolio.{
  scale_trade, Filter, new_filter, close_trade, close_from, close_until, snapshot_of, decide,
  consider, consider_all, filter_trades,
}

module _ {W : Type 0} ⦃d : Double W⦄ where
  -- Every trade exits by the time `last`.
  abbrev pub all_by : ℕ → List (TradePosition W) → Bool
  all_by last [] = true
  all_by last (t ∷ trades) = leb t.exit_time last && all_by last trades

  -- In a replay of `rounds` candidates, of which some are open and some still to be looked at by `close_until`.
  record Keeps (start : W) (last rounds left : ℕ) (f : Filter W) : Type 0 where
    balanced : f.equity ≡ equity_after start f.accepted
    counted : length f.accepted + (length f.opened + left) ≡ f.accepted_trades
    decided : f.accepted_trades + f.rejected_trades ≡ rounds
    ending : all_by last f.opened ≡ true

  equity_after_snoc :
      (start : W) (trades : List (TradePosition W)) (t : TradePosition W)
      → equity_after start (trades ++ (t ∷ [])) ≡ equity_after start trades ⊕ t.net_profit
  equity_after_snoc start [] t = refl
  equity_after_snoc start (u ∷ trades) t = equity_after_snoc (start ⊕ u.net_profit) trades t

  all_by_snoc :
      (last : ℕ) (trades : List (TradePosition W)) (t : TradePosition W)
      → all_by last trades ≡ true
      → leb t.exit_time last ≡ true
      → all_by last (trades ++ (t ∷ [])) ≡ true
  all_by_snoc last [] t h k = ground arith
  all_by_snoc last (u ∷ trades) t h k = ground (arith, all_by_snoc last trades t)

  module _ (start : W) (last rounds : ℕ) where
    close_from-Keeps :
        (at : ℕ) (f : Filter W) (rest : List (TradePosition W))
        → all_by last rest ≡ true
        → Keeps start last rounds (length rest) f
        → Keeps start last rounds 0 (close_from at f rest)
    unfolding close_from close_trade
    close_from-Keeps at f [] h k = k
    close_from-Keeps at f (t ∷ rest) h k =
        if-elim (Keeps start last rounds 0) (leb t.exit_time at)
          (λ _. close_from-Keeps at (close_trade f t) rest (ground arith) (record {
            balanced =
                ap (λ e. e ⊕ t.net_profit) k.balanced ∙ sym (equity_after_snoc start f.accepted t);
            counted = omega (arith, length-append f.accepted (t ∷ []), k.counted);
            decided = k.decided;
            ending = k.ending;
          }))
          (λ _.
            close_from-Keeps at (record f { opened = f.opened ++ (t ∷ []) }) rest (ground arith)
              (record {
                balanced = k.balanced;
                counted = omega (arith, length-append f.opened (t ∷ []), k.counted);
                decided = k.decided;
                ending = all_by_snoc last f.opened t k.ending (ground arith);
              }))

    close_until-Keeps :
        (at : ℕ) (f : Filter W)
        → Keeps start last rounds 0 f
        → Keeps start last rounds 0 (close_until at f)
    unfolding close_until
    close_until-Keeps at f k =
        close_from-Keeps at (record f { opened = [] }) f.opened k.ending
          (record {
            balanced = k.balanced;
            counted = omega (arith, k.counted);
            decided = k.decided;
            ending = refl;
          })

  -- At a time by which all exit, none stays.
  close_from_all :
      (last : ℕ) (f : Filter W) (rest : List (TradePosition W))
      → all_by last rest ≡ true
      → (close_from last f rest).opened ≡ f.opened
  unfolding close_from close_trade
  close_from_all last f [] h = refl
  close_from_all last f (t ∷ rest) h =
      let now : leb t.exit_time last ≡ true = ground arith in
      rw now (close_from_all last (close_trade f t) rest (ground arith))

  module _ (config : PortfolioRiskConfig W) (correlations : Dict (Dict W)) (volatility : Dict W)
      (day_start : W) (start : W) (last : ℕ) where
    decide-Keeps :
        (rounds : ℕ) (f : Filter W) (trade : TradePosition W) (decision : PortfolioDecision W)
        → leb trade.exit_time last ≡ true
        → Keeps start last rounds 0 f
        → Keeps start last
            (suc rounds)
            0
            (decide config correlations volatility day_start f trade decision)
    unfolding decide scale_trade
    decide-Keeps rounds f trade decision h k =
        if-elim (Keeps start last (suc rounds) 0) (not decision.approved)
          (λ _. record {
            balanced = k.balanced;
            counted = k.counted;
            decided = omega (arith, k.decided);
            ending = k.ending;
          })
          (λ _. record {
            balanced = k.balanced;
            counted = omega (
              arith,
              length-append f.opened (scale_trade trade decision.size_multiplier ∷ []),
              k.counted,
            );
            decided = omega (arith, k.decided);
            ending =
                all_by_snoc last f.opened (scale_trade trade decision.size_multiplier) k.ending h;
          })

    consider_all-Keeps :
        (rounds : ℕ) (f : Filter W) (trades : List (TradePosition W))
        → all_by last trades ≡ true
        → Keeps start last rounds 0 f
        → Keeps start last
            (length trades + rounds)
            0
            (consider_all config correlations volatility day_start f trades)
    unfolding consider_all consider
    consider_all-Keeps rounds f [] h k = rw zero-add k
    consider_all-Keeps rounds f (trade ∷ trades) h k =
        let current = close_until trade.entry_time f in
        let step =
          decide-Keeps rounds current trade
            (approve config trade.symbol (trade.entry_price ⊗ trade.quantity)
              (snapshot_of config correlations volatility day_start current) trade.entry_time)
            (ground arith) (close_until-Keeps start last rounds trade.entry_time f k) in
        let order : suc (length trades) + rounds ≡ length trades + suc rounds = omega arith in
        rw order (consider_all-Keeps (suc rounds) _ trades (ground arith) step)

  -- If every candidate exits by the end of a replay, then no trade is open at the end; each candidate was
  -- accepted or rejected; the accepted ones are all closed; and the equity is the starting equity with the
  -- profits of the closed trades added in the order of their closing.
  pub filter_trades_accounts :
      (config : PortfolioRiskConfig W) (correlations : Dict (Dict W)) (volatility : Dict W)
      (start : W) (last : ℕ) (raw_trades : List (TradePosition W))
      → all_by last raw_trades ≡ true
      → let f = filter_trades config correlations volatility start raw_trades last in
        (f.opened ≡ [])
        × (length f.accepted ≡ f.accepted_trades)
        × (f.accepted_trades + f.rejected_trades ≡ length raw_trades)
        × (f.equity ≡ equity_after start f.accepted)
  unfolding filter_trades close_until
  filter_trades_accounts config correlations volatility start last raw_trades h =
      let f = consider_all config correlations volatility start (new_filter start) raw_trades in
      let fresh : Keeps start last 0 0 (new_filter start) = record {
        balanced = refl;
        counted = refl;
        decided = refl;
        ending = refl;
      } in
      let k : Keeps start last (length raw_trades + 0) 0 f =
        consider_all-Keeps config correlations volatility start start last 0 (new_filter start)
          raw_trades h fresh in
      let end = close_until-Keeps start last (length raw_trades + 0) last f k in
      let none_open : (close_until last f).opened ≡ [] =
        close_from_all last (record f { opened = [] }) f.opened k.ending in
      (
        none_open,
        omega (arith, end.counted, ap (λ (o : List (TradePosition W)). length o) none_open),
        omega (arith, end.decided),
        end.balanced,
      )
