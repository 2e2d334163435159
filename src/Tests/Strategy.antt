-- ===== src/Tests/Strategy.antt =====
-- Runs of the strategies.
use sentum.Prelude.{ℕ, ◌≡◌, refl, true, List, [], ◌∷◌, arith}
use sentum.Float.{nought}
use sentum.Float.Fixed.{Fixed, fixed_double}
use sentum.Strategy.Frames.{TimeframeAggregator, new_aggregator, empty_frame, IsFrame}
use sentum.Strategy.Simple.{
  MomentumStrategy, new_momentum, momentum_reset, BreakoutStrategy, new_breakout,
}
use sentum.Strategy.Quiet.{momentum_signals, all_quiet, momentum_reset_quiet}
use sentum.Tests.{dollars}

abbrev minutes : TimeframeAggregator Fixed
minutes = new_aggregator 60

empty : IsFrame {W = Fixed} empty_frame
empty = record {
  number_high = refl;
  number_low = refl;
  low_open = refl;
  open_high = refl;
  low_close = refl;
  close_high = refl;
}

abbrev slow : MomentumStrategy Fixed
slow = new_momentum 3 (fixed_double.lit 1 3)

abbrev rising : List (Fixed × ℕ)
rising = (dollars 100, 1) ∷ (dollars 110, 2) ∷ []

momentum_reset_quiet_example : all_quiet (momentum_signals (momentum_reset slow) rising) ≡ true
momentum_reset_quiet_example = momentum_reset_quiet slow rising (omega arith)

abbrev window : BreakoutStrategy Fixed
window = record (new_breakout 2 nought) { window = dollars 100 ∷ dollars 101 ∷ [] }
