-- ===== src/Strategy/Quiet.antt =====
-- src/sentum/trader/strategy/MomentumStrategy.hpp and the breakout strategy: when they stay quiet.
use sentum.Prelude.{
  ℕ, ◌+◌, ◌≤◌, ◌<◌, ◌≡◌, refl, min, Bool, true, not, ◌&&◌, List, [], ◌∷◌, ◌++◌, ltb, length,
  length-set, length-append, arith, if-elim,
}
use sentum.Float.{Double, ◌⊗◌, ◌⊕◌, one, le}
use sentum.Market.Indicators.{RollingReturn, push_return}
use sentum.Strategy.Types.{StrategySignal, no_signal, is_buy}
use sentum.Strategy.Simple.{
  MomentumStrategy, momentum_signal, momentum_on_price, momentum_reset, BreakoutStrategy,
  breakout_on_price, max_element, pop_oldest,
}

module _ {W : Type 0} ⦃d : Double W⦄ where
  -- The signals that a momentum strategy gives to a list of prices, each with its time.
  unfoldable pub momentum_signals : MomentumStrategy W → List (W × ℕ) → List (StrategySignal W)
  momentum_signals s [] = []
  momentum_signals s ((price, at) ∷ prices) =
      let (next, signal) = momentum_on_price s price at in signal ∷ momentum_signals next prices

  unfoldable pub all_quiet : List (StrategySignal W) → Bool
  all_quiet [] = true
  all_quiet (s ∷ ss) = not (is_buy s.action) && all_quiet ss

  push_size :
      (r : RollingReturn W) (x : W)
      → r.size < length r.values
      → ((push_return r x).size ≡ r.size + 1) × (length (push_return r x).values ≡ length r.values)
  unfolding push_return
  push_size r x h = ground (arith, length-set r.values r.head x)

  unready :
      (s : MomentumStrategy W) (price : W) (at : ℕ)
      → s.rolling_return.size < length s.rolling_return.values
      → momentum_signal s price at ≡ no_signal
  unfolding momentum_signal
  unready s price at h = ground arith

  quiet_from :
      (s : MomentumStrategy W) (prices : List (W × ℕ))
      → s.rolling_return.size + length prices < length s.rolling_return.values
      → all_quiet (momentum_signals s prices) ≡ true
  unfolding all_quiet momentum_signals
  quiet_from s [] h = refl
  quiet_from s ((price, at) ∷ prices) h =
      let pushed : MomentumStrategy W = record s {
        rolling_return = push_return s.rolling_return price;
      } in
      let (size, values) = push_size s.rolling_return price (omega arith) in
      let silent = unready pushed price at (omega (arith, size, values)) in
      rw silent (quiet_from pushed prices (omega (arith, size, values)))

  -- After a reset, which follows every sale, the strategy buys at none of the prices before the window is
  -- full again.
  pub momentum_reset_quiet :
      (s : MomentumStrategy W) (prices : List (W × ℕ))
      → length prices < length s.rolling_return.values
      → all_quiet (momentum_signals (momentum_reset s) prices) ≡ true
  momentum_reset_quiet s prices h = quiet_from (momentum_reset s) prices (omega arith)

  length-roll :
      (xs : List W) (x : W) → 0 < length xs → length (pop_oldest xs ++ (x ∷ [])) ≡ length xs
  length-roll [] x h = omega arith
  length-roll (y ∷ xs) x h = omega (arith, length-append xs (x ∷ []))

  -- A breakout strategy keeps its lookback, and its window never grows beyond it.
  pub breakout_on_price_window :
      (s : BreakoutStrategy W) (price : W) (at : ℕ)
      → length s.window ≤ s.lookback
      → 0 < s.lookback
      → let after = (breakout_on_price s price at).0 in
        (after.lookback ≡ s.lookback) × (length after.window ≡ min (length s.window + 1) s.lookback)
  unfolding breakout_on_price
  breakout_on_price_window s price at h pos =
      let Fine : BreakoutStrategy W × StrategySignal W → Type 0 = λ r.
        (r.0.lookback ≡ s.lookback) × (length r.0.window ≡ min (length s.window + 1) s.lookback) in
      if-elim Fine (ltb (length s.window) s.lookback)
        (λ short. (refl, ground (arith, length-append s.window (price ∷ []))))
        (λ full.
          let rolled : length (pop_oldest s.window ++ (price ∷ []))
              ≡ min (length s.window + 1) s.lookback =
            ground (arith, length-roll s.window price) in
          if-elim Fine (le price (max_element s.window ⊗ (one ⊕ s.buffer))) (λ _. (refl, rolled))
            (λ _. (refl, rolled)))
