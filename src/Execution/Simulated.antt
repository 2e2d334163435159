-- ===== src/Execution/Simulated.antt =====
-- src/sentum/trader/execution/SimulatedExecutionVenue.hpp. Atomics are fields, since one thread uses the
-- venue. The update handler of a venue is a no-op in the trade engine, and `handled` is what it is given.
pub mod Fills
use sentum.Prelude.{
  ℕ, ◌+◌, String, Bool, true, false, not, ◌||◌, List, [], ◌∷◌, ◌++◌, if◌then◌else◌,
}
use sentum.Float.{Double, ◌⊕◌, ◌⊖◌, ◌⊗◌, le, fmax, nought, one}
use sentum.Order.Types.{Side, buy, sell, filled, Request, Snapshot, new_snapshot}
use sentum.Order.Manager.{Result, ok, throw, logic_error, invalid_argument}

pub record SimulatedVenue (W : Type 0) : Type 0 where
  pub name : String
  pub ready : Bool
  pub killed : Bool
  pub next_id : ℕ
  pub market_price : W
  pub spread_percent : W
  pub slippage_percent : W
  pub market_time : ℕ
  pub handled : List (Snapshot W)

module _ {W : Type 0} ⦃d : Double W⦄ where
  abbrev pub new_venue : String → SimulatedVenue W
  new_venue name = record {
    name = name;
    ready = false;
    killed = false;
    next_id = 0;
    market_price = nought;
    spread_percent = nought;
    slippage_percent = nought;
    market_time = 0;
    handled = [];
  }

  abbrev pub start : SimulatedVenue W → SimulatedVenue W
  start v = record v { ready = true; killed = false }

  abbrev pub stop : SimulatedVenue W → SimulatedVenue W
  stop v = record v { ready = false }

  abbrev pub kill : SimulatedVenue W → SimulatedVenue W
  kill v = record v { ready = false; killed = true }

  abbrev pub set_market : SimulatedVenue W → W → ℕ → SimulatedVenue W
  set_market v price timestamp = record v { market_price = price; market_time = timestamp }

  abbrev pub set_fill_model : SimulatedVenue W → W → W → SimulatedVenue W
  set_fill_model v spread slippage = record v {
    spread_percent = fmax nought spread;
    slippage_percent = fmax nought slippage;
  }

  unfoldable pub fill_price : SimulatedVenue W → Side → W
  fill_price v buy =
      let half_spread = v.spread_percent ⊗ d.lit 5 1 in
      v.market_price ⊗ (one ⊕ half_spread) ⊗ (one ⊕ v.slippage_percent)
  fill_price v sell =
      let half_spread = v.spread_percent ⊗ d.lit 5 1 in
      v.market_price ⊗ (one ⊖ half_spread) ⊗ (one ⊖ v.slippage_percent)

  abbrev pub fill : SimulatedVenue W → Request W → Snapshot W
  fill v request =
      let price = fill_price v request.side in
      record new_snapshot {
        symbol = request.symbol;
        client_order_id = request.client_order_id;
        exchange_order_id = v.next_id + 1;
        side = request.side;
        state = filled;
        requested_quantity = request.quantity;
        executed_quantity = request.quantity;
        average_fill_price = price;
        cumulative_quote_quantity = request.quantity ⊗ price;
        updated_at = v.market_time;
      }

  unfoldable pub submit : SimulatedVenue W → Request W → SimulatedVenue W × Result (Snapshot W)
  submit v request =
      if not v.ready || v.killed
      then (v, throw (logic_error "Simulated venue is not ready"))
      else if le request.quantity nought || le v.market_price nought
      then (v, throw (invalid_argument "Invalid simulated order"))
      else (
        record v { next_id = v.next_id + 1; handled = v.handled ++ (fill v request ∷ []) },
        ok (fill v request),
      )

  abbrev pub cancel : SimulatedVenue W → String → Result (Snapshot W)
  cancel v id = throw (logic_error "Simulated market orders fill immediately")
