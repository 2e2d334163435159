-- ===== src/Risk/Daily.antt =====
-- src/sentum/risk/RiskManager.cpp: the limits per day. `now` is the reading of the system clock.
use sentum.Prelude.{
  ℕ, ◌+◌, ◌*◌, ◌≤◌, ◌≡◌, refl, ◌∙◌, Bool, true, false, List, [], ◌∷◌, if◌then◌else◌, leb, arith,
}
use sentum.Clock.{from_seconds, aged}
use sentum.Float.{Double, ◌⊕◌, lt, gt, nought}

pub record DailyRisk (W : Type 0) : Type 0 where
  pub max_daily_loss : W
  pub max_trade_loss : W
  pub max_trades_per_day : ℕ
  pub daily_loss : W
  pub trades_today : ℕ
  pub last_reset : ℕ

-- What a day brings: a proposal with its possible loss and its result, or the time for a reset.
pub data DailyStep (W : Type 0) : Type 0 where
  propose : W → W → DailyStep W
  check : ℕ → DailyStep W

module _ {W : Type 0} ⦃d : Double W⦄ where
  unfoldable pub allow_trade : DailyRisk W → W → Bool
  allow_trade r potential_loss =
      if gt potential_loss r.max_trade_loss
      then false
      else if gt (r.daily_loss ⊕ potential_loss) r.max_daily_loss
      then false
      else if leb r.max_trades_per_day r.trades_today
      then false
      else true

  unfoldable pub record_trade : DailyRisk W → W → DailyRisk W
  record_trade r pnl = record r {
    daily_loss = r.daily_loss ⊕ (if lt pnl nought then d.neg pnl else nought);
    trades_today = r.trades_today + 1;
  }

  -- At least 24 whole hours since the last reset.
  unfoldable pub reset_day_if_needed : DailyRisk W → ℕ → DailyRisk W
  reset_day_if_needed r now =
      if aged now r.last_reset (from_seconds (24 * 3600))
      then record r { daily_loss = nought; trades_today = 0; last_reset = now }
      else r

  unfoldable pub trade_day : DailyRisk W → List (DailyStep W) → DailyRisk W
  trade_day r [] = r
  trade_day r (propose potential_loss pnl ∷ steps) =
      trade_day (if allow_trade r potential_loss then record_trade r pnl else r) steps
  trade_day r (check now ∷ steps) = trade_day (reset_day_if_needed r now) steps

  propose_limited :
      (r : DailyRisk W) (potential_loss pnl : W)
      → r.trades_today ≤ r.max_trades_per_day
      → let after = if allow_trade r potential_loss then record_trade r pnl else r in
        (after.trades_today ≤ after.max_trades_per_day)
        × (after.max_trades_per_day ≡ r.max_trades_per_day)
  unfolding allow_trade record_trade
  propose_limited r potential_loss pnl h = ground arith

  reset_limited :
      (r : DailyRisk W) (now : ℕ)
      → r.trades_today ≤ r.max_trades_per_day
      → let after = reset_day_if_needed r now in
        (after.trades_today ≤ after.max_trades_per_day)
        × (after.max_trades_per_day ≡ r.max_trades_per_day)
  unfolding reset_day_if_needed
  reset_limited r now h = ground arith

  -- If every allowed trade and no other is recorded, the trades between two resets never exceed the limit.
  pub trade_day_limited :
      (r : DailyRisk W) (steps : List (DailyStep W))
      → r.trades_today ≤ r.max_trades_per_day
      → let after = trade_day r steps in
        (after.trades_today ≤ after.max_trades_per_day)
        × (after.max_trades_per_day ≡ r.max_trades_per_day)
  unfolding trade_day
  trade_day_limited r [] h = (h, refl)
  trade_day_limited r (propose potential_loss pnl ∷ steps) h =
      let (limited, same) = propose_limited r potential_loss pnl h in
      let (after, kept) =
        trade_day_limited (if allow_trade r potential_loss then record_trade r pnl else r) steps
          limited in
      (after, kept ∙ same)
  trade_day_limited r (check now ∷ steps) h =
      let (limited, same) = reset_limited r now h in
      let (after, kept) = trade_day_limited (reset_day_if_needed r now) steps limited in
      (after, kept ∙ same)
