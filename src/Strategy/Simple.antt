-- ===== src/Strategy/Simple.antt =====
-- src/sentum/trader/strategy/MomentumStrategy.hpp and the strategies on single prices in
-- src/sentum/trader/strategy/StrategyFramework.hpp. A strategy is a state with an `IStrategy`; `none` in
-- place of a new state is the constructor's exception.
use sentum.Prelude.{
  ℕ, ◌+◌, max, not, ◌&&◌, ◌||◌, String, Option, none, some, List, [], ◌∷◌, ◌++◌, if◌then◌else◌, ltb,
  leb, length, ◌==◌,
}
use sentum.Float.{Double, ◌⊕◌, ◌⊖◌, ◌⊗◌, ◌⊘◌, lt, le, gt, nought, one, from_size, fmax, clamp, fabs}
use sentum.Market.Indicators.{
  RollingReturn, new_return, push_return, ready_return, value_return, reset_return, Ema, new_ema,
  push_ema, Rsi, new_rsi, push_rsi, ready_rsi,
}
use sentum.Strategy.Types.{TradeAction, StrategySignal, IStrategy, no_signal, event_price}

pub record MomentumStrategy (W : Type 0) : Type 0 where
  pub lookback : ℕ
  pub entry_threshold : W
  pub rolling_return : RollingReturn W

pub record TrendStrategy (W : Type 0) : Type 0 where
  pub fast_period : ℕ
  pub slow_period : ℕ
  pub samples : ℕ
  pub threshold : W
  pub fast : Ema W
  pub slow : Ema W

pub record MeanReversionStrategy (W : Type 0) : Type 0 where
  pub period : ℕ
  pub oversold : W
  pub rsi : Rsi W

pub record BreakoutStrategy (W : Type 0) : Type 0 where
  pub lookback : ℕ
  pub buffer : W
  pub window : List W

module _ {W : Type 0} ⦃d : Double W⦄ where
  abbrev pub buy_signal : String → String → W → ℕ → W → StrategySignal W
  buy_signal name reason price at confidence = record {
    action = TradeAction.buy;
    strategy = name;
    reason = reason;
    reference_price = price;
    created_at = at;
    confidence = confidence;
  }

  -- `IStrategy::on_event`, where a strategy does not override it.
  abbrev pub from_prices :
      {S : Type 0} → (S → W → ℕ → S × StrategySignal W) → (S → S) → String → IStrategy S W
  from_prices on_price reset name = record {
    on_price = on_price;
    on_event = λ s event. on_price s (event_price event) event.timestamp;
    reset = reset;
    name = name;
  }

  abbrev pub new_momentum : ℕ → W → MomentumStrategy W
  new_momentum lookback entry_threshold = record {
    lookback = lookback;
    entry_threshold = entry_threshold;
    rolling_return = new_return lookback;
  }

  -- The signal after a price was pushed.
  unfoldable pub momentum_signal : MomentumStrategy W → W → ℕ → StrategySignal W
  momentum_signal s price at =
      if not (ready_return s.rolling_return)
      then no_signal
      else (let value = value_return s.rolling_return in
          if lt value s.entry_threshold
          then no_signal
          else (let denominator = fmax (fabs s.entry_threshold) (d.lit 1 9) in
              let confidence = clamp (value ⊘ denominator) nought (from_size 2) ⊘ from_size 2 in
              buy_signal "momentum" "lookback return crossed entry threshold" price at confidence))

  abbrev pub momentum_on_price : MomentumStrategy W → W → ℕ → MomentumStrategy W × StrategySignal W
  momentum_on_price s price at =
      let pushed : MomentumStrategy W = record s {
        rolling_return = push_return s.rolling_return price;
      } in
      (pushed, momentum_signal pushed price at)

  abbrev pub momentum_reset : MomentumStrategy W → MomentumStrategy W
  momentum_reset s = record s { rolling_return = reset_return s.rolling_return }

  abbrev pub momentum : IStrategy (MomentumStrategy W) W
  momentum = from_prices momentum_on_price momentum_reset "momentum"

  unfoldable pub new_trend : ℕ → ℕ → W → Option (TrendStrategy W)
  new_trend fast slow threshold =
      if fast == 0 || leb slow fast
      then none
      else some (record {
        fast_period = fast;
        slow_period = slow;
        samples = 0;
        threshold = threshold;
        fast = new_ema fast;
        slow = new_ema slow;
      })

  unfoldable pub trend_on_price : TrendStrategy W → W → ℕ → TrendStrategy W × StrategySignal W
  trend_on_price s price at =
      let fast = push_ema s.fast price in
      let slow = push_ema s.slow price in
      let pushed : TrendStrategy W = record s {
        fast = fast;
        slow = slow;
        samples = s.samples + 1;
      } in
      (
        pushed,
        (if ltb pushed.samples s.slow_period || not (gt slow.value nought)
            then no_signal
            else (let spread = (fast.value ⊖ slow.value) ⊘ slow.value in
                if lt spread s.threshold
                then no_signal
                else (let confidence =
                      clamp (spread ⊘ fmax s.threshold (d.lit 1 9)) nought (from_size 2)
                      ⊘ from_size 2 in
                    buy_signal "trend" "fast EMA above slow EMA" price at confidence))),
      )

  abbrev pub trend_reset : TrendStrategy W → TrendStrategy W
  trend_reset s = record s {
    fast = new_ema s.fast_period;
    slow = new_ema s.slow_period;
    samples = 0;
  }

  abbrev pub trend : IStrategy (TrendStrategy W) W
  trend = from_prices trend_on_price trend_reset "trend"

  unfoldable pub new_mean_reversion : ℕ → W → Option (MeanReversionStrategy W)
  new_mean_reversion period oversold =
      if not (gt oversold nought && lt oversold (from_size 50))
      then none
      else some (record { period = period; oversold = oversold; rsi = new_rsi period })

  unfoldable pub mean_reversion_on_price :
      MeanReversionStrategy W → W → ℕ → MeanReversionStrategy W × StrategySignal W
  mean_reversion_on_price s price at =
      let (rsi, value) = push_rsi s.rsi price in
      (
        record s { rsi = rsi },
        (if not (ready_rsi rsi) || gt value s.oversold
            then no_signal
            else (let confidence = clamp ((s.oversold ⊖ value) ⊘ fmax s.oversold one) nought one in
                buy_signal "mean_reversion" "RSI entered oversold region" price at confidence)),
      )

  abbrev pub mean_reversion_reset : MeanReversionStrategy W → MeanReversionStrategy W
  mean_reversion_reset s = record s { rsi = new_rsi s.period }

  abbrev pub mean_reversion : IStrategy (MeanReversionStrategy W) W
  mean_reversion = from_prices mean_reversion_on_price mean_reversion_reset "mean_reversion"

  abbrev pub new_breakout : ℕ → W → BreakoutStrategy W
  new_breakout lookback buffer = record {
    lookback = max 2 lookback;
    buffer = fmax nought buffer;
    window = [];
  }

  -- `std::max_element` from the element in hand on.
  unfoldable pub max_from : W → List W → W
  max_from best [] = best
  max_from best (x ∷ xs) = max_from (if lt best x then x else best) xs

  -- The window is not empty where the code takes its maximum; at an empty one the code's is undefined.
  abbrev pub max_element : List W → W
  max_element [] = nought
  max_element (x ∷ xs) = max_from x xs

  abbrev pub pop_oldest : List W → List W
  pop_oldest [] = []
  pop_oldest (x ∷ xs) = xs

  unfoldable pub breakout_on_price :
      BreakoutStrategy W → W → ℕ → BreakoutStrategy W × StrategySignal W
  breakout_on_price s price at =
      if ltb (length s.window) s.lookback
      then (record s { window = s.window ++ (price ∷ []) }, no_signal)
      else (let prior_high = max_element s.window in
          let next : BreakoutStrategy W = record s {
            window = pop_oldest s.window ++ (price ∷ []);
          } in
          if le price (prior_high ⊗ (one ⊕ s.buffer))
          then (next, no_signal)
          else (let breakout =
                if gt prior_high nought then (price ⊖ prior_high) ⊘ prior_high else nought in
              (
                next,
                buy_signal "breakout" "price broke rolling high" price at (
                    clamp (breakout ⊘ fmax s.buffer (d.lit 1 6)) nought (from_size 2)
                    ⊘ from_size 2),
              )))

  abbrev pub breakout_reset : BreakoutStrategy W → BreakoutStrategy W
  breakout_reset s = record s { window = [] }

  abbrev pub breakout : IStrategy (BreakoutStrategy W) W
  breakout = from_prices breakout_on_price breakout_reset "breakout"
