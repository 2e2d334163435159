-- ===== src/Backtest/Drawdown.antt =====
-- What the metrics say about the course of the equity.
use sentum.Prelude.{◌≡◌, refl, true, List, [], ◌∷◌, ◌++◌, arith}
use sentum.Float.{Double, IsFloat, ◌⊕◌, ◌⊖◌, le, nought, fmax, is_number}
use sentum.Float.Order.{le_of_lt, le_of_not_lt}
use sentum.Trader.Position.{TradePosition}
use sentum.Backtest.{Totals, new_totals, add_trade, add_trades, metrics_of, calculate}

module _ {W : Type 0} ⦃d : Double W⦄ where
  -- The equity after the trades, from 0 on.
  abbrev pub equity_after : W → List (TradePosition W) → W
  equity_after equity [] = equity
  equity_after equity (t ∷ trades) = equity_after (equity ⊕ t.net_profit) trades

  -- How far the equity is below its peak.
  abbrev pub distance : Totals W → W
  distance m = m.peak ⊖ m.equity

  add_trades-append :
      (m : Totals W) (xs ys : List (TradePosition W))
      → add_trades m (xs ++ ys) ≡ add_trades (add_trades m xs) ys
  unfolding add_trades
  add_trades-append m [] ys = refl
  add_trades-append m (t ∷ xs) ys = add_trades-append (add_trade m t) xs ys

  equity_lem :
      (m : Totals W) (xs : List (TradePosition W))
      → (add_trades m xs).equity ≡ equity_after m.equity xs
  unfolding add_trades add_trade
  equity_lem m [] = refl
  equity_lem m (t ∷ xs) = equity_lem (add_trade m t) xs

  max_drawdown_lem :
      (xs : List (TradePosition W)) (slippage : W)
      → (calculate xs slippage).max_drawdown ≡ (add_trades new_totals xs).drawdown
  unfolding calculate metrics_of add_trades
  max_drawdown_lem [] slippage = refl
  max_drawdown_lem (t ∷ xs) slippage = refl

  module _ (laws : IsFloat W) where
    grown :
        (x y : W) → is_number x ≡ true → (le x (fmax x y) ≡ true) × (is_number (fmax x y) ≡ true)
    grown x y hx = ground (arith, le_of_lt laws x y, laws.number_of_lt x y)

    covered : (x y : W) → is_number x ≡ true → is_number y ≡ true → le y (fmax x y) ≡ true
    covered x y hx hy = ground (arith, le_of_not_lt laws x y hx hy)

    -- The peak covers the equity, and the drawdown the distance between them.
    record Watched (m : Totals W) : Type 0 where
      peak_number : is_number m.peak ≡ true
      drawdown_number : is_number m.drawdown ≡ true
      above : is_number m.equity ≡ true → le m.equity m.peak ≡ true
      deep : is_number (m.peak ⊖ m.equity) ≡ true → le (m.peak ⊖ m.equity) m.drawdown ≡ true

    new_totals-Watched : Watched new_totals
    new_totals-Watched = record {
      peak_number = laws.lit_number 0 0;
      drawdown_number = laws.lit_number 0 0;
      above = λ h. h;
      deep = λ h. laws.sub-le_nonneg nought nought (laws.lit_nonneg 0 0) h;
    }

    add_trade-Watched : (m : Totals W) (t : TradePosition W) → Watched m → Watched (add_trade m t)
    unfolding add_trade
    add_trade-Watched m t w = record {
      peak_number = (grown m.peak (m.equity ⊕ t.net_profit) w.peak_number).1;
      drawdown_number = (grown m.drawdown _ w.drawdown_number).1;
      above = λ h. covered m.peak (m.equity ⊕ t.net_profit) w.peak_number h;
      deep = λ h. covered m.drawdown _ w.drawdown_number h;
    }

    add_trades-Watched :
        (m : Totals W) (xs : List (TradePosition W)) → Watched m → Watched (add_trades m xs)
    unfolding add_trades
    add_trades-Watched m [] w = w
    add_trades-Watched m (t ∷ xs) w =
        add_trades-Watched (add_trade m t) xs (add_trade-Watched m t w)

    -- Neither the peak nor the drawdown falls.
    rises :
        (m : Totals W) (xs : List (TradePosition W))
        → Watched m
        → let after = add_trades m xs in
          (le m.peak after.peak ≡ true) × (le m.drawdown after.drawdown ≡ true)
    unfolding add_trades add_trade
    rises m [] w = (w.peak_number, w.drawdown_number)
    rises m (t ∷ xs) w =
        let (peak, drawdown) = rises (add_trade m t) xs (add_trade-Watched m t w) in
        (
          laws.le_trans _ _ _ (grown m.peak (m.equity ⊕ t.net_profit) w.peak_number).0 peak,
          laws.le_trans _ _ _ (grown m.drawdown _ w.drawdown_number).0 drawdown,
        )

    -- No fall of the equity between two points of the run, the start included, is deeper than the drawdown
    -- that `calculate` reports, where the fall and the distance to the peak are numbers.
    pub max_drawdown_covers :
        (xs ys zs : List (TradePosition W)) (slippage : W)
        → is_number (equity_after nought xs ⊖ equity_after nought (xs ++ ys)) ≡ true
        → is_number (distance (add_trades new_totals (xs ++ ys))) ≡ true
        → le
            (equity_after nought xs ⊖ equity_after nought (xs ++ ys))
            (calculate ((xs ++ ys) ++ zs) slippage).max_drawdown
          ≡ true
    max_drawdown_covers xs ys zs slippage fall_number deep_number =
        let high = add_trades new_totals xs in
        let low = add_trades new_totals (xs ++ ys) in
        let early : Watched high = add_trades-Watched new_totals xs new_totals-Watched in
        let late : Watched low = add_trades-Watched new_totals (xs ++ ys) new_totals-Watched in
        let fall : is_number (high.equity ⊖ low.equity) ≡ true =
          rw (equity_lem new_totals xs, equity_lem new_totals (xs ++ ys)) fall_number in
        let covers : le high.equity low.peak ≡ true =
          laws.le_trans _ _ _ (early.above (laws.number_of_sub _ _ fall).0)
            (rw (add_trades-append new_totals xs ys) (rises high ys early).0) in
        let fell : le (high.equity ⊖ low.equity) (low.peak ⊖ low.equity) ≡ true =
          laws.sub_mono _ _ _ covers fall deep_number in
        let kept : le low.drawdown (add_trades new_totals ((xs ++ ys) ++ zs)).drawdown ≡ true =
          rw (add_trades-append new_totals (xs ++ ys) zs) (rises low zs late).1 in
        rw
          (
            max_drawdown_lem ((xs ++ ys) ++ zs) slippage,
            ← equity_lem new_totals xs,
            ← equity_lem new_totals (xs ++ ys),
          )
          (laws.le_trans _ _ _ fell (laws.le_trans _ _ _ (late.deep deep_number) kept))
