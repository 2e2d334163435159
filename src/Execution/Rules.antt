-- ===== src/Execution/Rules.antt =====
-- src/sentum/trader/execution/ExchangeRules.hpp.
use sentum.Prelude.{
  ◌>>=◌, ℕ, ◌≡◌, ◌⊎◌, String, Bool, true, false, not, ◌&&◌, ◌||◌, Option, none, some, List, [], ◌∷◌,
  if◌then◌else◌, arith, option-elim,
}
use sentum.Prelude.Text.{concat}
use sentum.Prelude.Dict.{str_eq}
use sentum.Float.{Double, ◌⊗◌, ◌⊘◌, lt, le, gt, nought}
use sentum.Order.Manager.{Exception, Result, ok, throw, failed, logic_error, runtime_error, failure}

pub record ExchangeRules (W : Type 0) : Type 0 where
  pub min_quantity : W
  pub max_quantity : W
  pub step_size : W
  pub min_notional : W
  pub base_precision : ℕ
  pub quote_precision : ℕ

-- What `from_exchange_info` uses of nlohmann::json and of `std::stod`. `elements` gives `none` where the
-- key is missing or holds no array, and `iterated` what a loop over `at` visits, in an object its values, or
-- `none` where the key is missing; `value_text` and `value_precision` are `value` with a fallback, and
-- `none` where it throws, as it does at a value of another type.
pub record InfoDocument (J W : Type 0) : Type 0 where
  pub elements : J → String → Option (List J)
  pub iterated : J → String → Option (List J)
  pub value_text : J → String → String → Option String
  pub value_precision : J → String → ℕ → Option ℕ
  pub stod : String → Option W

module _ {W : Type 0} ⦃d : Double W⦄ where
  abbrev pub new_rules : ExchangeRules W
  new_rules = record {
    min_quantity = nought;
    max_quantity = nought;
    step_size = nought;
    min_notional = nought;
    base_precision = 8;
    quote_precision = 8;
  }

  abbrev pub normalized : ExchangeRules W → W → W
  normalized r value = d.floor (value ⊘ r.step_size) ⊗ r.step_size

  unfoldable pub normalize_quantity : ExchangeRules W → W → Result W
  normalize_quantity r value =
      if le r.step_size nought
      then throw (logic_error "Invalid exchange step size")
      else if lt (normalized r value) r.min_quantity
      then throw (runtime_error "Quantity below exchange minimum")
      else if gt r.max_quantity nought && gt (normalized r value) r.max_quantity
      then throw (runtime_error "Quantity above exchange maximum")
      else ok (normalized r value)

  -- `none` where the call returns.
  unfoldable pub validate_notional : ExchangeRules W → W → W → Option Exception
  validate_notional r quantity price =
      if lt (quantity ⊗ price) r.min_notional
      then some (runtime_error "Order notional below exchange minimum")
      else none

  module _ {J : Type 0} (doc : InfoDocument J W) where
    -- `std::stod(filter.value(key, "0"))`.
    abbrev pub parse_field : J → String → Option W
    parse_field filter key = elim (doc.value_text filter key "0") [
      | none ↦ none
      | some text ↦ doc.stod text
    ]

    -- A field takes the filter's value where it is still 0, or the filter is the one for market orders.
    unfoldable pub take_field : Bool → W → J → String → Option W
    take_field market current filter key =
        if d.eq current nought || market then parse_field filter key else some current

    unfoldable pub read_lot_size : ExchangeRules W → Bool → J → Option (ExchangeRules W)
    read_lot_size r market filter = do
      min_quantity ← take_field market r.min_quantity filter "minQty"
      max_quantity ← take_field market r.max_quantity filter "maxQty"
      step_size ← take_field market r.step_size filter "stepSize"
      some (record r {
        min_quantity = min_quantity;
        max_quantity = max_quantity;
        step_size = step_size;
      })

    unfoldable pub read_filter : ExchangeRules W → J → Option (ExchangeRules W)
    read_filter r filter = do
      type ← doc.value_text filter "filterType" ""
      if str_eq type "LOT_SIZE" || str_eq type "MARKET_LOT_SIZE"
          then read_lot_size r (str_eq type "MARKET_LOT_SIZE") filter
          else if str_eq type "MIN_NOTIONAL" || str_eq type "NOTIONAL"
          then (do
            least ← parse_field filter "minNotional"
            some (record r { min_notional = least }))
          else some r

    unfoldable pub read_filters : ExchangeRules W → List J → Option (ExchangeRules W)
    read_filters r [] = some r
    read_filters r (filter ∷ filters) = do next ← read_filter r filter; read_filters next filters

    -- The precisions and the filters of an item.
    unfoldable pub read_precisions : J → Option (ExchangeRules W)
    read_precisions item = do
      base ← doc.value_precision item "baseAssetPrecision" 8
      quote ← doc.value_precision item "quoteAssetPrecision" 8
      filters ← doc.iterated item "filters"
      let start : ExchangeRules W = record new_rules {
        base_precision = base;
        quote_precision = quote;
      }
      read_filters start filters

    -- The item of the symbol; `failure` is an exception of a callee.
    unfoldable pub read_symbol : J → Result (ExchangeRules W)
    read_symbol item = elim (doc.value_text item "status" "") [
      | none ↦ throw (failure "status")
      | some status ↦
          if not (str_eq status "TRADING")
          then throw (runtime_error "Symbol is not trading")
          else elim (read_precisions item) [
            | none ↦ throw (failure "filters")
            | some r ↦
                if le r.step_size nought
                then throw (runtime_error "Exchange did not provide a usable quantity step")
                else ok r
          ]
    ]

    unfoldable pub find_symbol : List J → String → Result (ExchangeRules W)
    find_symbol [] symbol =
        throw (runtime_error (concat "Symbol missing from exchangeInfo: " symbol))
    find_symbol (item ∷ items) symbol = elim (doc.value_text item "symbol" "") [
      | none ↦ throw (failure "symbol")
      | some name ↦ if not (str_eq name symbol) then find_symbol items symbol else read_symbol item
    ]

    unfoldable pub from_exchange_info : J → String → Result (ExchangeRules W)
    from_exchange_info info symbol = elim (doc.elements info "symbols") [
      | none ↦ throw (runtime_error "Invalid exchangeInfo response")
      | some items ↦ find_symbol items symbol
    ]

    read_symbol_usable :
        (item : J) (r : ExchangeRules W) → read_symbol item ≡ ok r → le r.step_size nought ≡ false
    unfolding read_symbol
    read_symbol_usable item r h = ground arith

    find_symbol_usable :
        (items : List J) (symbol : String) (r : ExchangeRules W)
        → find_symbol items symbol ≡ ok r
        → le r.step_size nought ≡ false
    unfolding find_symbol
    find_symbol_usable [] symbol r h = ground arith
    find_symbol_usable (item ∷ items) symbol r h =
        ground (arith, read_symbol_usable item r, find_symbol_usable items symbol r)

    -- Rules that were read have a step above 0, or one that is not a number, whatever the exchange sent.
    pub from_exchange_info_usable :
        (info : J) (symbol : String) (r : ExchangeRules W)
        → from_exchange_info info symbol ≡ ok r
        → le r.step_size nought ≡ false
    unfolding from_exchange_info
    from_exchange_info_usable info symbol r h =
        let Fine : Result (ExchangeRules W) → Type 0 =
          λ o. o ≡ ok r → le r.step_size nought ≡ false in
        option-elim Fine (doc.elements info "symbols")
          (throw (runtime_error "Invalid exchangeInfo response"))
          (λ items. find_symbol items symbol) (λ h. ground arith)
          (λ items h. find_symbol_usable items symbol r h) h

  -- A quantity that passes is a whole number of steps within the limits, and carries no error; any other
  -- is refused.
  pub normalize_quantity_cases :
      (r : ExchangeRules W) (value : W)
      → ((normalize_quantity r value ≡ ok (normalized r value))
          × (le r.step_size nought ≡ false)
          × (lt (normalized r value) r.min_quantity ≡ false)
          × ((gt r.max_quantity nought ≡ false) ⊎ (gt (normalized r value) r.max_quantity ≡ false)))
        ⊎ ((failed (normalize_quantity r value) ≡ true)
            × ((le r.step_size nought ≡ true)
                ⊎ ((lt (normalized r value) r.min_quantity ≡ true)
                    ⊎ (gt (normalized r value) r.max_quantity ≡ true))))
  unfolding normalize_quantity
  normalize_quantity_cases r value = ground arith
