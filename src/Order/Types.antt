-- ===== src/Order/Types.antt =====
-- src/sentum/trader/order/OrderTypes.hpp. Times are ticks of `sentum.Clock`.
use sentum.Prelude.{ℕ, String, Bool, true, false, ◌&&◌, ltb}
use sentum.Float.{Double, gt, nought}

pub data Side : Type 0 where
  buy sell : Side

pub data State : Type 0 where
  pending acknowledged partially_filled filled cancelling cancelled rejected : State

unfoldable pub to_string : State → String
to_string pending = "pending"
to_string acknowledged = "acknowledged"
to_string partially_filled = "partially_filled"
to_string filled = "filled"
to_string cancelling = "cancelling"
to_string cancelled = "cancelled"
to_string rejected = "rejected"

-- The comparisons `state == State::…` that the code makes.
abbrev pub is_filled : State → Bool
is_filled filled = true
is_filled _ = false

-- Pending, Acknowledged or PartiallyFilled.
abbrev pub is_live : State → Bool
is_live pending = true
is_live acknowledged = true
is_live partially_filled = true
is_live _ = false

-- Filled, Cancelled or Rejected.
abbrev pub is_final : State → Bool
is_final filled = true
is_final cancelled = true
is_final rejected = true
is_final _ = false

-- Pending, Acknowledged, PartiallyFilled or Cancelling.
abbrev pub is_unresolved : State → Bool
is_unresolved pending = true
is_unresolved acknowledged = true
is_unresolved partially_filled = true
is_unresolved cancelling = true
is_unresolved _ = false

pub record Request (W : Type 0) : Type 0 where
  pub symbol : String
  pub side : Side
  pub quantity : W
  pub client_order_id : String

pub record Snapshot (W : Type 0) : Type 0 where
  pub symbol : String
  pub client_order_id : String
  pub exchange_order_id : ℕ
  pub side : Side
  pub state : State
  pub requested_quantity : W
  pub executed_quantity : W
  pub cumulative_quote_quantity : W
  pub average_fill_price : W
  pub rejection_reason : String
  pub updated_at : ℕ

module _ {W : Type 0} ⦃d : Double W⦄ where
  -- `Snapshot{}`: the member initialisers.
  abbrev pub new_snapshot : Snapshot W
  new_snapshot = record {
    symbol = "";
    client_order_id = "";
    exchange_order_id = 0;
    side = buy;
    state = pending;
    requested_quantity = nought;
    executed_quantity = nought;
    cumulative_quote_quantity = nought;
    average_fill_price = nought;
    rejection_reason = "";
    updated_at = 0;
  }

  abbrev pub exchange_confirmed_fill : Snapshot W → Bool
  exchange_confirmed_fill s =
      is_filled s.state && (ltb 0 s.exchange_order_id && gt s.executed_quantity nought)
