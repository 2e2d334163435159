-- ===== src/Risk/Entry.antt =====
-- src/sentum/trader/risk/RiskManager.hpp: whether a signal may open a position, and how large.
use sentum.Prelude.{ℕ, ◌≡◌, ◌⊎◌, String, Bool, true, false, not, ◌&&◌, if◌then◌else◌, arith, ◌==◌}
use sentum.Clock.{from_ms, from_seconds, older_than, younger_than}
use sentum.Float.{Double, ◌⊗◌, ◌⊘◌, lt, le, gt, nought}
use sentum.Risk.Config.{RiskConfig}
use sentum.Strategy.Types.{StrategySignal, is_buy}

pub record RiskDecision (W : Type 0) : Type 0 where
  pub approved : Bool
  pub reason : String
  pub quantity : W
  pub notional : W

module _ {W : Type 0} ⦃d : Double W⦄ (config : RiskConfig W) where
  abbrev reject : String → RiskDecision W
  reject reason = record { approved = false; reason = reason; quantity = nought; notional = nought }

  -- The size that the risk budget allows, in whole steps.
  abbrev pub sized : W → W
  sized price =
      let capital_at_risk = config.max_total_capital ⊗ config.risk_per_trade in
      let loss_per_unit = price ⊗ config.stop_loss_percent in
      d.floor ((capital_at_risk ⊘ loss_per_unit) ⊘ config.step_size) ⊗ config.step_size

  -- `now` is the reading of the system clock.
  unfoldable pub approve_entry : StrategySignal W → W → ℕ → ℕ → ℕ → RiskDecision W
  approve_entry signal price price_time last_exit now =
      if not (is_buy signal.action)
      then reject "signal is not BUY"
      else if le price nought
      then reject "invalid market price"
      else if older_than now price_time (from_ms config.max_data_age_ms)
      then reject "market data is stale"
      else if not (last_exit == 0)
          && younger_than now last_exit (from_seconds config.cooldown_seconds)
      then reject "cooldown active"
      else if le (price ⊗ config.stop_loss_percent) nought
      then reject "invalid stop-loss distance"
      else (let quantity = sized price in
          let notional = quantity ⊗ price in
          if lt quantity config.min_quantity
          then reject "quantity below exchange minimum"
          else if gt config.max_quantity nought && gt quantity config.max_quantity
          then reject "quantity above exchange maximum"
          else if lt notional config.min_notional
          then reject "notional below exchange minimum"
          else if gt notional (config.max_total_capital ⊗ config.leverage)
          then reject "position exceeds configured capital"
          else record {
            approved = true;
            reason = "approved";
            quantity = quantity;
            notional = notional;
          })

  -- What an approval promises.
  pub record IsAdmissible (signal : StrategySignal W) (price : W) (price_time last_exit now : ℕ)
      : Type 0 where
    pub buys : is_buy signal.action ≡ true
    pub priced : le price nought ≡ false
    pub recent : older_than now price_time (from_ms config.max_data_age_ms) ≡ false
    pub rested :
        (last_exit ≡ 0)
        ⊎ (younger_than now last_exit (from_seconds config.cooldown_seconds) ≡ false)
    pub stop_distance : le (price ⊗ config.stop_loss_percent) nought ≡ false
    pub minimum : lt (sized price) config.min_quantity ≡ false
    pub maximum :
        (gt config.max_quantity nought ≡ false) ⊎ (gt (sized price) config.max_quantity ≡ false)
    pub worth : lt (sized price ⊗ price) config.min_notional ≡ false
    pub funded : gt (sized price ⊗ price) (config.max_total_capital ⊗ config.leverage) ≡ false

  -- An entry is approved only if the signal buys, the price is usable and recent, the cooldown is over and
  -- the sized order passes every filter; it then carries that size and its worth. A refused entry carries
  -- neither.
  pub approve_entry_sound :
      (signal : StrategySignal W) (price : W) (price_time last_exit now : ℕ)
      → let r = approve_entry signal price price_time last_exit now in
        ((r.approved ≡ true)
          × IsAdmissible signal price price_time last_exit now
          × (r.quantity ≡ sized price)
          × (r.notional ≡ sized price ⊗ price))
        ⊎ ((r.approved ≡ false) × (r.quantity ≡ nought) × (r.notional ≡ nought))
  unfolding approve_entry
  approve_entry_sound signal price price_time last_exit now = ground arith

  -- An admissible entry is approved.
  pub approve_entry_complete :
      (signal : StrategySignal W) (price : W) (price_time last_exit now : ℕ)
      → IsAdmissible signal price price_time last_exit now
      → (approve_entry signal price price_time last_exit now).approved ≡ true
  unfolding approve_entry
  approve_entry_complete signal price price_time last_exit now h = ground arith
