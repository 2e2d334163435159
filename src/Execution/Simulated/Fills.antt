-- ===== src/Execution/Simulated/Fills.antt =====
-- src/sentum/trader/execution/SimulatedExecutionVenue.hpp: the price of a fill, and when there is one.
use sentum.Prelude.{◌+◌, ◌≡◌, ◌⊎◌, true, false, [], ◌∷◌, ◌++◌, arith}
use sentum.Float.{Double, IsFloat, ◌⊕◌, ◌⊖◌, ◌⊗◌, le, gt, is_number, nought, one}
use sentum.Order.Types.{buy, sell, Request, exchange_confirmed_fill}
use sentum.Order.Manager.{ok, failed}
use sentum.Execution.Simulated.{SimulatedVenue, fill_price, fill, submit}

module _ {W : Type 0} ⦃d : Double W⦄ where
  -- The venue fills at once or refuses with nothing changed; a fill takes the next order number and, for
  -- a quantity that is a number, counts as confirmed.
  pub submit_cases :
      (v : SimulatedVenue W) (r : Request W)
      → let (after, result) = submit v r in
        ((v.ready ≡ true)
          × (v.killed ≡ false)
          × (le r.quantity nought ≡ false)
          × (le v.market_price nought ≡ false)
          × (result ≡ ok (fill v r))
          × (exchange_confirmed_fill (fill v r) ≡ gt r.quantity nought)
          × (after.next_id ≡ v.next_id + 1)
          × (after.handled ≡ v.handled ++ (fill v r ∷ [])))
        ⊎ ((failed result ≡ true) × (after ≡ v))
  unfolding submit
  submit_cases v r = ground arith

  module _ (laws : IsFloat W) where
    -- With a price, a spread and a slippage that are not negative, and no overflow to NaN, a purchase
    -- costs at least the market price.
    pub buy_price_adverse :
        (v : SimulatedVenue W)
        → le nought v.market_price ≡ true
        → le nought v.spread_percent ≡ true
        → le nought v.slippage_percent ≡ true
        → is_number (fill_price v buy) ≡ true
        → le v.market_price (fill_price v buy) ≡ true
    unfolding fill_price
    buy_price_adverse v hp hs hl num =
        let half = v.spread_percent ⊗ d.lit 5 1 in
        let touch = v.market_price ⊗ (one ⊕ half) in
        let (touch_num, slip_num) = laws.number_of_mul touch (one ⊕ v.slippage_percent) num in
        let (_, factor_num) = laws.number_of_mul v.market_price (one ⊕ half) touch_num in
        let (one_num, half_num) = laws.number_of_add one half factor_num in
        let half_nonneg =
          laws.mul_nonneg v.spread_percent (d.lit 5 1) hs (laws.lit_nonneg 5 1) half_num in
        let up =
          laws.le-mul_of_one_le v.market_price (one ⊕ half) hp
            (laws.le-add_nonneg one half half_nonneg factor_num) touch_num in
        let up_again =
          laws.le-mul_of_one_le touch (one ⊕ v.slippage_percent)
            (laws.le_trans nought v.market_price touch hp up)
            (laws.le-add_nonneg one v.slippage_percent hl slip_num) num in
        laws.le_trans v.market_price touch (fill_price v buy) up up_again

    -- With a spread of at most 200 percent besides, a sale brings at most the market price.
    pub sell_price_adverse :
        (v : SimulatedVenue W)
        → le nought v.market_price ≡ true
        → le nought v.spread_percent ≡ true
        → le nought v.slippage_percent ≡ true
        → le (v.spread_percent ⊗ d.lit 5 1) one ≡ true
        → is_number (fill_price v sell) ≡ true
        → le (fill_price v sell) v.market_price ≡ true
    unfolding fill_price
    sell_price_adverse v hp hs hl hh num =
        let half = v.spread_percent ⊗ d.lit 5 1 in
        let touch = v.market_price ⊗ (one ⊖ half) in
        let (touch_num, slip_num) = laws.number_of_mul touch (one ⊖ v.slippage_percent) num in
        let (_, factor_num) = laws.number_of_mul v.market_price (one ⊖ half) touch_num in
        let (one_num, half_num) = laws.number_of_sub one half factor_num in
        let half_nonneg =
          laws.mul_nonneg v.spread_percent (d.lit 5 1) hs (laws.lit_nonneg 5 1) half_num in
        let touch_nonneg =
          laws.mul_nonneg v.market_price (one ⊖ half) hp (laws.sub_nonneg one half hh factor_num)
            touch_num in
        let down =
          laws.mul-le_of_le_one v.market_price (one ⊖ half) hp
            (laws.sub-le_nonneg one half half_nonneg factor_num) touch_num in
        let down_again =
          laws.mul-le_of_le_one touch (one ⊖ v.slippage_percent) touch_nonneg
            (laws.sub-le_nonneg one v.slippage_percent hl slip_num) num in
        laws.le_trans (fill_price v sell) touch v.market_price down_again down
