-- ===== src/Strategy/Combined.antt =====
-- src/sentum/trader/strategy/StrategyFramework.hpp: the strategies on two timeframes and on votes.
use Prim.Native.String.{len}
use sentum.Prelude.{
  ℕ, ◌+◌, not, ◌||◌, String, Option, none, some, List, [], ◌∷◌, ◌++◌, if◌then◌else◌, ltb, leb, map,
  ◌==◌,
}
use sentum.Prelude.Text.{concat}
use sentum.Float.{Double, ◌⊕◌, ◌⊖◌, ◌⊗◌, ◌⊘◌, lt, gt, nought, one, from_size, fmax, clamp}
use sentum.Market.Types.{MarketEvent, new_event, trade}
use sentum.Market.Indicators.{Ema, new_ema, push_ema}
use sentum.Strategy.Types.{is_buy, StrategySignal, IStrategy, no_signal, event_price}
use sentum.Strategy.Frames.{TimeframeAggregator, new_aggregator, push_frame, reset_frames}
use sentum.Strategy.Simple.{buy_signal}

pub record MultiTimeframe (W : Type 0) : Type 0 where
  pub fast_tf_seconds : ℕ
  pub slow_tf_seconds : ℕ
  pub ema_period : ℕ
  pub threshold : W
  pub fast_frame : TimeframeAggregator W
  pub slow_frame : TimeframeAggregator W
  pub fast_ema : Ema W
  pub slow_ema : Ema W
  pub fast_samples : ℕ
  pub slow_samples : ℕ
  pub fast_value : W
  pub slow_value : W

-- A frame size with its average, and how often it was pushed: the fast and the slow half are alike.
pub record Half (W : Type 0) : Type 0 where
  pub frame : TimeframeAggregator W
  pub ema : Ema W
  pub samples : ℕ
  pub value : W

-- A member: its strategy, the strategy's state, and its weight. `S` is one type for all members' states.
pub record Member (S W : Type 0) : Type 0 where
  pub strategy : IStrategy S W
  pub state : S
  pub weight : W

pub record EnsembleStrategy (S W : Type 0) : Type 0 where
  pub threshold : W
  pub members : List (Member S W)

-- The locals of the loop over the members.
pub record Votes (W : Type 0) : Type 0 where
  pub weighted : W
  pub total : W
  pub reasons : String

module _ {W : Type 0} ⦃d : Double W⦄ where
  unfoldable pub new_multi_timeframe : ℕ → ℕ → ℕ → W → Option (MultiTimeframe W)
  new_multi_timeframe fast slow ema_period threshold =
      if leb slow fast
      then none
      else some (record {
        fast_tf_seconds = fast;
        slow_tf_seconds = slow;
        ema_period = ema_period;
        threshold = threshold;
        fast_frame = new_aggregator fast;
        slow_frame = new_aggregator slow;
        fast_ema = new_ema ema_period;
        slow_ema = new_ema ema_period;
        fast_samples = 0;
        slow_samples = 0;
        fast_value = nought;
        slow_value = nought;
      })

  -- `if (frame.push(event)) { value = ema.push(frame.latest_closed().close); ++samples; }`
  unfoldable pub push_half : Half W → MarketEvent W → Half W
  push_half h event =
      let (frame, closed) = push_frame h.frame event in
      if closed
      then (let ema = push_ema h.ema frame.latest_closed.close in
          record { frame = frame; ema = ema; samples = h.samples + 1; value = ema.value })
      else record h { frame = frame }

  unfoldable pub multi_timeframe_on_event :
      MultiTimeframe W → MarketEvent W → MultiTimeframe W × StrategySignal W
  multi_timeframe_on_event s event =
      let fast_half : Half W = record {
        frame = s.fast_frame;
        ema = s.fast_ema;
        samples = s.fast_samples;
        value = s.fast_value;
      } in
      let slow_half : Half W = record {
        frame = s.slow_frame;
        ema = s.slow_ema;
        samples = s.slow_samples;
        value = s.slow_value;
      } in
      let fast = push_half fast_half event in
      let slow = push_half slow_half event in
      (
        record s {
          fast_frame = fast.frame;
          slow_frame = slow.frame;
          fast_ema = fast.ema;
          slow_ema = slow.ema;
          fast_samples = fast.samples;
          slow_samples = slow.samples;
          fast_value = fast.value;
          slow_value = slow.value;
        },
        (if ltb fast.samples s.ema_period
              || (ltb slow.samples s.ema_period || not (gt slow.value nought))
            then no_signal
            else (let spread = (fast.value ⊖ slow.value) ⊘ slow.value in
                if lt spread s.threshold
                then no_signal
                else buy_signal "multi_timeframe_trend"
                    "fast timeframe trend confirmed by slow timeframe" (event_price event)
                    event.timestamp
                    (clamp (spread ⊘ fmax s.threshold (d.lit 1 9)) nought (from_size 2)
                      ⊘ from_size 2))),
      )

  -- The event that `on_price` makes of a price.
  abbrev pub price_event : W → ℕ → MarketEvent W
  price_event price at = record new_event {
    type = trade;
    price = price;
    close = price;
    timestamp = at;
  }

  abbrev pub multi_timeframe_reset : MultiTimeframe W → MultiTimeframe W
  multi_timeframe_reset s = record s {
    fast_frame = reset_frames s.fast_frame;
    slow_frame = reset_frames s.slow_frame;
    fast_ema = new_ema s.ema_period;
    slow_ema = new_ema s.ema_period;
    fast_samples = 0;
    slow_samples = 0;
    fast_value = nought;
    slow_value = nought;
  }

  abbrev pub multi_timeframe : IStrategy (MultiTimeframe W) W
  multi_timeframe = record {
    on_price = λ s price at. multi_timeframe_on_event s (price_event price at);
    on_event = multi_timeframe_on_event;
    reset = multi_timeframe_reset;
    name = "multi_timeframe_trend";
  }

  unfoldable pub count_vote : Votes W → W → StrategySignal W → Votes W
  count_vote v weight signal =
      let confidence = if gt signal.confidence nought then signal.confidence else one in
      let separated = if len v.reasons == 0 then v.reasons else concat v.reasons "; " in
      if is_buy signal.action
      then record {
        weighted = v.weighted ⊕ (weight ⊗ confidence);
        total = v.total ⊕ weight;
        reasons = concat separated signal.strategy;
      }
      else record v { total = v.total ⊕ weight }

  module _ {S : Type 0} where
    -- `none` is the exception: the weight is not above 0.
    unfoldable pub add_member :
        EnsembleStrategy S W → IStrategy S W → S → W → Option (EnsembleStrategy S W)
    add_member e strategy state weight =
        if not (gt weight nought)
        then none
        else some (record e {
          members =
              e.members ++ (record { strategy = strategy; state = state; weight = weight } ∷ []);
        })

    unfoldable pub vote : Votes W → List (Member S W) → MarketEvent W → List (Member S W) × Votes W
    vote v [] event = ([], v)
    vote v (m ∷ ms) event =
        let (state, signal) = m.strategy.on_event m.state event in
        let (rest, votes) = vote (count_vote v m.weight signal) ms event in
        (record m { state = state } ∷ rest, votes)

    unfoldable pub ensemble_on_event :
        EnsembleStrategy S W → MarketEvent W → EnsembleStrategy S W × StrategySignal W
    ensemble_on_event e event =
        let start : Votes W = record { weighted = nought; total = nought; reasons = "" } in
        let (members, v) = vote start e.members event in
        let score = if gt v.total nought then v.weighted ⊘ v.total else nought in
        (
          record e { members = members },
          (if lt score e.threshold
              then no_signal
              else buy_signal "ensemble" (concat "ensemble confirmation: " v.reasons)
                  (event_price event) event.timestamp (clamp score nought one)),
        )

    abbrev pub reset_member : Member S W → Member S W
    reset_member m = record m { state = m.strategy.reset m.state }

    abbrev pub ensemble_reset : EnsembleStrategy S W → EnsembleStrategy S W
    ensemble_reset e = record e { members = map reset_member e.members }

    abbrev pub ensemble : IStrategy (EnsembleStrategy S W) W
    ensemble = record {
      on_price = λ s price at. ensemble_on_event s (price_event price at);
      on_event = ensemble_on_event;
      reset = ensemble_reset;
      name = "ensemble";
    }
