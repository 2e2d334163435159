-- ===== src/Risk/Config.antt =====
-- src/sentum/trader/types/RiskConfig.hpp and src/sentum/trader/utils/RiskConfigLoader.cpp. Reading the
-- file is not modelled: the loader starts from the parsed document.
use sentum.Prelude.{
  ◌>>=◌, ℕ, ◌≡◌, sym, ap, ◌∙◌, inl, inr, Bool-cases, String, Bool, true, false, ◌&&◌, ◌||◌, Option,
  none, some, if◌then◌else◌, ◌==◌, arith, ◌<◌,
}
use sentum.Float.{Double, lt, le, gt, nought, one}

pub record RiskConfig (W : Type 0) : Type 0 where
  pub max_total_capital : W
  pub risk_per_trade : W
  pub stop_loss_percent : W
  pub take_profit_percent : W
  pub trailing_sl_enabled : Bool
  pub trailing_sl_percent : W
  pub trailing_tp_enabled : Bool
  pub trailing_tp_percent : W
  pub buy_fee_percent : W
  pub sell_fee_percent : W
  pub slippage_percent : W
  pub spread_percent : W
  pub leverage : W
  pub min_quantity : W
  pub max_quantity : W
  pub step_size : W
  pub min_notional : W
  pub cooldown_seconds : ℕ
  pub max_holding_seconds : ℕ
  pub max_data_age_ms : ℕ

-- What the loader uses of nlohmann::json: `contains`, `is_number` and `get`, and `value` with a fallback;
-- `none` is a missing key, a value of another type, or an exception. An integer below 0, which the loader
-- refuses for all three keys, is `none` too.
pub record RiskDocument (J W : Type 0) : Type 0 where
  pub required_number : J → String → Option W
  pub required_integer : J → String → Option ℕ
  pub value_bool : J → String → Bool → Option Bool
  pub value_number : J → String → W → Option W

-- What follows from a successful chain follows from its rest.
through :
    {A B Q : Type 0} (m : Option A) (f : A → Option B) (b : B)
    → ((a : A) → f a ≡ some b → Q)
    → (m >>= f) ≡ some b
    → Q
through none f b k h = absurd (ground arith)
through (some a) f b k h = k a h

module _ {W : Type 0} ⦃d : Double W⦄ where
  -- The checks at the end of `load_risk_config`, in order; any failure is an exception.
  unfoldable pub valid : RiskConfig W → Bool
  valid c =
      if le c.max_total_capital nought || (le c.risk_per_trade nought || gt c.risk_per_trade one)
      then false
      else if le c.stop_loss_percent nought || le c.take_profit_percent nought
      then false
      else if lt c.buy_fee_percent nought
          || (lt c.sell_fee_percent nought
              || (lt c.slippage_percent nought || lt c.spread_percent nought))
      then false
      else if le c.leverage nought
          || (le c.step_size nought || (le c.min_quantity nought || le c.min_notional nought))
      then false
      else if gt c.max_quantity nought && lt c.max_quantity c.min_quantity
      then false
      else if c.max_holding_seconds == 0 || c.max_data_age_ms == 0
      then false
      else true

  module _ {J : Type 0} (doc : RiskDocument J W) where
    open doc use {required_number, required_integer, value_bool, value_number}

    -- The reads of `load_risk_config`, in order.
    unfoldable pub read_risk_config : J → Option (RiskConfig W)
    read_risk_config j = do
      max_total_capital ← required_number j "max_total_capital"
      risk_per_trade ← required_number j "risk_per_trade"
      stop_loss_percent ← required_number j "stop_loss_percent"
      take_profit_percent ← required_number j "take_profit_percent"
      buy_fee_percent ← required_number j "buy_fee_percent"
      sell_fee_percent ← required_number j "sell_fee_percent"
      slippage_percent ← required_number j "slippage_percent"
      spread_percent ← required_number j "spread_percent"
      leverage ← required_number j "leverage"
      min_quantity ← required_number j "min_quantity"
      max_quantity ← required_number j "max_quantity"
      step_size ← required_number j "step_size"
      min_notional ← required_number j "min_notional"
      cooldown_seconds ← required_integer j "cooldown_seconds"
      max_holding_seconds ← required_integer j "max_holding_seconds"
      max_data_age_ms ← required_integer j "max_data_age_ms"
      trailing_sl_enabled ← value_bool j "trailing_sl_enabled" false
      trailing_sl_percent ← value_number j "trailing_sl_percent" nought
      trailing_tp_enabled ← value_bool j "trailing_tp_enabled" false
      trailing_tp_percent ← value_number j "trailing_tp_percent" nought
      some (record {
        max_total_capital = max_total_capital;
        risk_per_trade = risk_per_trade;
        stop_loss_percent = stop_loss_percent;
        take_profit_percent = take_profit_percent;
        trailing_sl_enabled = trailing_sl_enabled;
        trailing_sl_percent = trailing_sl_percent;
        trailing_tp_enabled = trailing_tp_enabled;
        trailing_tp_percent = trailing_tp_percent;
        buy_fee_percent = buy_fee_percent;
        sell_fee_percent = sell_fee_percent;
        slippage_percent = slippage_percent;
        spread_percent = spread_percent;
        leverage = leverage;
        min_quantity = min_quantity;
        max_quantity = max_quantity;
        step_size = step_size;
        min_notional = min_notional;
        cooldown_seconds = cooldown_seconds;
        max_holding_seconds = max_holding_seconds;
        max_data_age_ms = max_data_age_ms;
      })

    unfoldable pub load_risk_config : J → Option (RiskConfig W)
    load_risk_config j = read_risk_config j >>= λ c. if valid c then some c else none

  -- What a configuration that the loader lets through is sure to be.
  pub record IsChecked (c : RiskConfig W) : Type 0 where
    pub capital : (le c.max_total_capital nought ≡ false) × (le c.risk_per_trade nought ≡ false)
    pub risk : gt c.risk_per_trade one ≡ false
    pub exits : (le c.stop_loss_percent nought ≡ false) × (le c.take_profit_percent nought ≡ false)
    pub costs : (lt c.buy_fee_percent nought ≡ false) × (lt c.sell_fee_percent nought ≡ false)
    pub market : (lt c.slippage_percent nought ≡ false) × (lt c.spread_percent nought ≡ false)
    pub filters : (le c.leverage nought ≡ false) × (le c.step_size nought ≡ false)
    pub minima : (le c.min_quantity nought ≡ false) × (le c.min_notional nought ≡ false)
    pub maximum : gt c.max_quantity nought ≡ true → lt c.max_quantity c.min_quantity ≡ false
    pub times : (0 < c.max_holding_seconds) × (0 < c.max_data_age_ms)

  valid-IsChecked : (c : RiskConfig W) → valid c ≡ true → IsChecked c
  unfolding valid
  valid-IsChecked c h = record {
    capital = ground arith;
    risk = ground arith;
    exits = ground arith;
    costs = ground arith;
    market = ground arith;
    filters = ground arith;
    minima = ground arith;
    maximum = λ big. ground arith;
    times = ground arith;
  }

  checked : (x c : RiskConfig W) → (if valid x then some x else none) ≡ some c → IsChecked c
  checked x c h = elim (Bool-cases (valid x)) [
    | inl good ↦ let same : x ≡ c = ground arith in valid-IsChecked c (ap valid (sym same) ∙ good)
    | inr bad ↦ absurd (ground arith)
  ]

  module _ {J : Type 0} (doc : RiskDocument J W) where
    -- A configuration that the loader returns has passed every check.
    pub load_risk_config-IsChecked :
        (j : J) (c : RiskConfig W) → load_risk_config doc j ≡ some c → IsChecked c
    unfolding load_risk_config
    load_risk_config-IsChecked j c =
        through (read_risk_config doc j) (λ x. if valid x then some x else none) c
          (λ x. checked x c)
