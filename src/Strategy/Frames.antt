-- ===== src/Strategy/Frames.antt =====
-- src/sentum/trader/strategy/StrategyFramework.hpp: `TimeframeAggregator`. A bucket of -1, the mark of an
-- empty frame, is `none`.
use sentum.Prelude.{
  ℕ, ◌/◌, max, ◌==◌, Bool, true, false, not, Option, none, some, if◌then◌else◌, ◌≡◌, arith, if-elim,
  option-elim,
}
use sentum.Clock.{from_seconds}
use sentum.Float.{Double, IsFloat, ◌⊕◌, gt, le, nought, fmax, fmin, is_number}
use sentum.Float.Order.{fmax_bounds, fmin_bounds}
use sentum.Market.Types.{MarketEvent}
use sentum.Strategy.Types.{event_price}

pub record AggregatedFrame (W : Type 0) : Type 0 where
  pub bucket : Option ℕ
  pub open_price : W
  pub high : W
  pub low : W
  pub close : W
  pub volume : W
  pub ready : Bool

pub record TimeframeAggregator (W : Type 0) : Type 0 where
  pub seconds : ℕ
  pub current : AggregatedFrame W
  pub latest_closed : AggregatedFrame W

module _ {W : Type 0} ⦃d : Double W⦄ where
  abbrev pub empty_frame : AggregatedFrame W
  empty_frame = record {
    bucket = none;
    open_price = nought;
    high = nought;
    low = nought;
    close = nought;
    volume = nought;
    ready = false;
  }

  abbrev pub new_aggregator : ℕ → TimeframeAggregator W
  new_aggregator seconds = record {
    seconds = max 1 seconds;
    current = empty_frame;
    latest_closed = empty_frame;
  }

  -- The first frame of a bucket.
  abbrev pub opened_frame : AggregatedFrame W → ℕ → W → W → AggregatedFrame W
  opened_frame f bucket price volume = record f {
    bucket = some bucket;
    open_price = price;
    high = price;
    low = price;
    close = price;
    volume = f.volume ⊕ volume;
  }

  abbrev pub widened_frame : AggregatedFrame W → W → W → AggregatedFrame W
  widened_frame f price volume = record f {
    high = fmax f.high price;
    low = fmin f.low price;
    close = price;
    volume = f.volume ⊕ volume;
  }

  -- The current frame with one more price in it.
  unfoldable pub extend : AggregatedFrame W → ℕ → W → W → AggregatedFrame W
  extend f bucket price volume = elim f.bucket [
    | none ↦ opened_frame f bucket price volume
    | some b ↦ widened_frame f price volume
  ]

  -- The frame is one of another bucket.
  abbrev pub is_over : AggregatedFrame W → ℕ → Bool
  is_over f bucket = elim f.bucket [ none ↦ false | some b ↦ not (b == bucket) ]

  -- The aggregator, and whether a frame has closed.
  unfoldable pub push_frame : TimeframeAggregator W → MarketEvent W → TimeframeAggregator W × Bool
  push_frame a event =
      let price = event_price event in
      if not (gt price nought)
      then (a, false)
      else (let bucket = (event.timestamp / from_seconds 1) / a.seconds in
          if is_over a.current bucket
          then (
            record a {
              latest_closed = record a.current { ready = true };
              current = extend empty_frame bucket price event.volume;
            },
            true,
          )
          else (record a { current = extend a.current bucket price event.volume }, false))

  abbrev pub reset_frames : TimeframeAggregator W → TimeframeAggregator W
  reset_frames a = record a { current = empty_frame; latest_closed = empty_frame }

  -- The range of a frame has its first and its last price in it.
  pub record IsFrame (f : AggregatedFrame W) : Type 0 where
    pub number_high : is_number f.high ≡ true
    pub number_low : is_number f.low ≡ true
    pub low_open : le f.low f.open_price ≡ true
    pub open_high : le f.open_price f.high ≡ true
    pub low_close : le f.low f.close ≡ true
    pub close_high : le f.close f.high ≡ true

  module _ (laws : IsFloat W) where
    opened-IsFrame :
        (f : AggregatedFrame W) (bucket : ℕ) (price volume : W)
        → is_number price ≡ true
        → IsFrame (opened_frame f bucket price volume)
    opened-IsFrame f bucket price volume num = record {
      number_high = num;
      number_low = num;
      low_open = num;
      open_high = num;
      low_close = num;
      close_high = num;
    }

    widened-IsFrame :
        (f : AggregatedFrame W) (price volume : W)
        → is_number price ≡ true
        → IsFrame f
        → IsFrame (widened_frame f price volume)
    widened-IsFrame f price volume num h =
        let (up, above) = fmax_bounds laws f.high price h.number_high num in
        let (down, below) = fmin_bounds laws f.low price h.number_low num in
        record {
          number_high = (laws.number_of_le f.high (fmax f.high price) up).1;
          number_low = (laws.number_of_le (fmin f.low price) f.low down).0;
          low_open = laws.le_trans (fmin f.low price) f.low f.open_price down h.low_open;
          open_high = laws.le_trans f.open_price f.high (fmax f.high price) h.open_high up;
          low_close = below;
          close_high = above;
        }

    extend-IsFrame :
        (f : AggregatedFrame W) (bucket : ℕ) (price volume : W)
        → is_number price ≡ true
        → IsFrame f
        → IsFrame (extend f bucket price volume)
    unfolding extend
    extend-IsFrame f bucket price volume num h =
        option-elim IsFrame f.bucket (opened_frame f bucket price volume)
          (λ _. widened_frame f price volume) (opened-IsFrame f bucket price volume num)
          (λ _. widened-IsFrame f price volume num h)

    empty-IsFrame : IsFrame empty_frame
    empty-IsFrame =
        let zero_num = laws.lit_number 0 0 in
        record {
          number_high = zero_num;
          number_low = zero_num;
          low_open = zero_num;
          open_high = zero_num;
          low_close = zero_num;
          close_high = zero_num;
        }

    -- Both frames of an aggregator stay in order: the low is at most, and the high at least, the first and
    -- the last price of the frame.
    pub push_frame_keeps :
        (a : TimeframeAggregator W) (event : MarketEvent W)
        → IsFrame a.current
        → IsFrame a.latest_closed
        → let after = (push_frame a event).0 in IsFrame after.current × IsFrame after.latest_closed
    unfolding push_frame
    push_frame_keeps a event hc hl =
        let Fine : TimeframeAggregator W × Bool → Type 0 =
          λ r. IsFrame r.0.current × IsFrame r.0.latest_closed in
        let price = event_price event in
        let bucket = (event.timestamp / from_seconds 1) / a.seconds in
        if-elim Fine (not (gt price nought)) (λ _. (hc, hl))
          (λ positive.
            let num : is_number price ≡ true = ground (arith, laws.number_of_lt nought price) in
            if-elim Fine (is_over a.current bucket)
              (λ _. (
                extend-IsFrame empty_frame bucket price event.volume num empty-IsFrame,
                record {
                  number_high = hc.number_high;
                  number_low = hc.number_low;
                  low_open = hc.low_open;
                  open_high = hc.open_high;
                  low_close = hc.low_close;
                  close_high = hc.close_high;
                },
              ))
              (λ _. (extend-IsFrame a.current bucket price event.volume num hc, hl)))
