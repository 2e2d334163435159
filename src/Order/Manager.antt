-- ===== src/Order/Manager.antt =====
-- src/sentum/trader/order/OrderManager.hpp. A call that the code splits by its lock is split here too:
-- `submit_begin` and `submit_finish` are the two parts of `submit_market` around the request to the
-- exchange, between which events may come in. What the exchange answers is an argument. `published` is
-- what the update handler is given, and `cancel_requests` the orders that the exchange is asked to cancel, oldest
-- first.
pub mod KillSwitch
pub mod Lifecycle
use sentum.Prelude.{
  ℕ, String, Bool, true, false, not, Option, none, some, List, [], ◌∷◌, ◌++◌, ◌||◌, if◌then◌else◌,
}
use sentum.Prelude.Dict.{Dict, lookup, insert, str_eq}
use sentum.Clock.{from_ms}
use sentum.Float.{Double, ◌⊘◌, le, gt, nought}
use sentum.Order.Types.{
  Side, buy, sell, State, pending, acknowledged, partially_filled, filled, cancelling, cancelled,
  rejected, is_live, is_final, is_unresolved, Request, Snapshot, new_snapshot,
}
use sentum.Order.Json.{Json}

-- The exceptions, with their text; `failure` is one thrown by a callee.
pub data Exception : Type 0 where
  logic_error invalid_argument out_of_range runtime_error failure : String → Exception

pub data Result {ℓ} (A : Type ℓ) : Type ℓ where
  ok : A → Result A
  throw : Exception → Result A

abbrev pub failed {ℓ} : {A : Type ℓ} → Result A → Bool
failed (ok a) = false
failed (throw e) = true

pub record OrderManager (W : Type 0) : Type 0 where
  pub orders : Dict (Snapshot W)
  pub reconciled : Bool
  pub kill_switch : Bool
  pub published : List (Snapshot W)
  pub cancel_requests : List String

-- What the exchange answers to a request: a document, or a thrown text.
pub data Answer (J : Type 0) : Type 0 where
  answered : J → Answer J
  refused : String → Answer J

unfoldable pub map_state : String → State
map_state s =
    if str_eq s "NEW"
    then acknowledged
    else if str_eq s "PARTIALLY_FILLED"
    then partially_filled
    else if str_eq s "FILLED"
    then filled
    else if str_eq s "PENDING_CANCEL"
    then cancelling
    else if str_eq s "CANCELED" || str_eq s "EXPIRED"
    then cancelled
    else if str_eq s "REJECTED"
    then rejected
    else pending

abbrev pub side_of : String → Side
side_of s = if str_eq s "SELL" then sell else buy

module _ {W : Type 0} ⦃d : Double W⦄ where
  abbrev pub new_manager : OrderManager W
  new_manager = record {
    orders = [];
    reconciled = false;
    kill_switch = false;
    published = [];
    cancel_requests = [];
  }

  abbrev pub publish : OrderManager W → Snapshot W → OrderManager W
  publish m s = record m { published = m.published ++ (s ∷ []) }

  abbrev pub put : OrderManager W → Snapshot W → OrderManager W
  put m s = record m { orders = insert s.client_order_id s m.orders }

  abbrev pub get : OrderManager W → String → Option (Snapshot W)
  get m id = lookup id m.orders

  -- The first part of `submit_market`: the checks, and the pending order.
  unfoldable pub submit_begin :
      OrderManager W → Request W → ℕ → OrderManager W × Result (Snapshot W)
  submit_begin m r now =
      if not m.reconciled
      then (m, throw (logic_error "Orders cannot be submitted before startup reconciliation"))
      else if m.kill_switch
      then (m, throw (logic_error "Kill switch is active"))
      else if le r.quantity nought || (str_eq r.symbol "" || str_eq r.client_order_id "")
      then (m, throw (invalid_argument "Invalid order request"))
      else elim (get m r.client_order_id) [
        | some old ↦ (m, throw (logic_error "Duplicate client order id"))
        | none ↦
            let p = record new_snapshot {
              symbol = r.symbol;
              client_order_id = r.client_order_id;
              side = r.side;
              requested_quantity = r.quantity;
              state = pending;
              updated_at = now;
            } in
            (publish (put m p) p, ok p)
      ]

  -- `orders_[id]`.
  abbrev pub entry_at : OrderManager W → String → Snapshot W
  entry_at m id = elim (get m id) [ none ↦ new_snapshot | some c ↦ c ]

  -- `orders_.at(id)`, a change of the order, and its publication; `at` throws for a missing order.
  unfoldable pub update_at :
      OrderManager W → String → (Snapshot W → Snapshot W) → OrderManager W × Result (Snapshot W)
  update_at m id change = elim (get m id) [
    | none ↦ (m, throw (out_of_range "at"))
    | some old ↦
        let c = change old in (publish (record m { orders = insert id c m.orders }) c, ok c)
  ]

  abbrev pub rejected_at : String → ℕ → Snapshot W → Snapshot W
  rejected_at what now c = record c { state = rejected; rejection_reason = what; updated_at = now }

  abbrev pub acknowledged_at : ℕ → ℕ → Snapshot W → Snapshot W
  acknowledged_at order_id now c = record c {
    exchange_order_id = order_id;
    state = acknowledged;
    updated_at = now;
  }

  -- The `catch` of `submit_market`, whose own `at` may throw too.
  abbrev pub submit_reject :
      OrderManager W → Request W → String → ℕ → OrderManager W × Result (Snapshot W)
  submit_reject m r what now = update_at m r.client_order_id (rejected_at what now)

  abbrev pub submit_accept :
      OrderManager W → Request W → ℕ → ℕ → OrderManager W × Result (Snapshot W)
  submit_accept m r order_id now = update_at m r.client_order_id (acknowledged_at order_id now)

  module _ {J : Type 0} (json : Json J W) where
    open json use {value_text, value_int, field, number, elements}

    unfoldable pub parse : J → String → W → W
    parse v k fallback = elim (field v k) [
      | none ↦ fallback
      | some x ↦ elim (number x) [ none ↦ fallback | some n ↦ n ]
    ]

    -- The second part of `submit_market`: what follows the answer to `place_market_order`.
    unfoldable pub submit_finish :
        OrderManager W → Request W → Answer J → ℕ → OrderManager W × Result (Snapshot W)
    submit_finish m r (refused what) now = submit_reject m r what now
    submit_finish m r (answered ack) now = elim (value_int ack "orderId" 0) [
      | none ↦ submit_reject m r "type_error" now
      | some order_id ↦ submit_accept m r order_id now
    ]

    -- `from_rest`, for one open order; `none` where a field has another type than is asked for.
    unfoldable pub from_rest : J → ℕ → Option (Snapshot W)
    unfolding parse
    from_rest v now = elim (value_text v "symbol" "") [
      | none ↦ none
      | some symbol ↦ elim (value_text v "clientOrderId" "") [
        | none ↦ none
        | some id ↦ elim (value_int v "orderId" 0) [
          | none ↦ none
          | some order_id ↦ elim (value_text v "side" "BUY") [
            | none ↦ none
            | some side ↦ elim (value_text v "status" "") [
              | none ↦ none
              | some status ↦
                  let executed = parse v "executedQty" nought in
                  let quote = parse v "cummulativeQuoteQty" nought in
                  some (record {
                    symbol = symbol;
                    client_order_id = id;
                    exchange_order_id = order_id;
                    side = side_of side;
                    state = map_state status;
                    requested_quantity = parse v "origQty" nought;
                    executed_quantity = executed;
                    cumulative_quote_quantity = quote;
                    average_fill_price = if gt executed nought then quote ⊘ executed else nought;
                    rejection_reason = "";
                    updated_at = now;
                  })
            ]
          ]
        ]
      ]
    ]

    -- The loop of `reconcile_startup`; an exception leaves it with the orders read so far.
    unfoldable pub load_orders : List J → ℕ → Dict (Snapshot W) → Dict (Snapshot W) × Bool
    load_orders [] now acc = (acc, true)
    load_orders (v ∷ vs) now acc = elim (from_rest v now) [
      | none ↦ (acc, false)
      | some s ↦ load_orders vs now (insert s.client_order_id s acc)
    ]

    unfoldable pub reconcile_startup :
        OrderManager W → Answer J → ℕ → OrderManager W × Result (Unit {0})
    reconcile_startup m (refused what) now = (m, throw (failure what))
    reconcile_startup m (answered open_orders) now = elim (elements open_orders) [
      | none ↦ (m, throw (runtime_error "Invalid open-orders reconciliation response"))
      | some vs ↦
          let (loaded, complete) = load_orders vs now [] in
          if complete
          then (record m { orders = loaded; reconciled = true }, ok tt)
          else (record m { orders = loaded }, throw (failure "type_error"))
    ]

    -- The assignments of `on_user_data_event`, in order: a field of another type than is asked for throws
    -- between two of them, and leaves the first ones done.
    abbrev pub assign :
        {A : Type 0} → Option A → Snapshot W → (A → Snapshot W × Bool) → Snapshot W × Bool
    assign none c k = (c, false)
    assign (some a) c k = k a

    unfoldable pub apply_report : J → String → Snapshot W → Snapshot W × Bool
    unfolding parse
    apply_report e id c = assign (value_text e "s" c.symbol) c λ symbol.
        let c1 = record c { symbol = symbol; client_order_id = id } in
        assign (value_int e "i" c1.exchange_order_id) c1 λ order_id.
          let c2 = record c1 { exchange_order_id = order_id } in
          assign (value_text e "S" "BUY") c2 λ side.
            let executed = parse e "z" c2.executed_quantity in
            let quote = parse e "Z" c2.cumulative_quote_quantity in
            let c3 = record c2 {
              side = side_of side;
              requested_quantity = parse e "q" c2.requested_quantity;
              executed_quantity = executed;
              cumulative_quote_quantity = quote;
              average_fill_price = if gt executed nought then quote ⊘ executed else nought;
            } in
            assign (value_text e "X" "") c3 λ status.
              let c4 = record c3 { state = map_state status } in
              assign (value_text e "r" "") c4 λ reason.
                let c5 = record c4 { rejection_reason = reason } in
                assign (value_int e "E" 0) c5
                  λ time. (record c5 { updated_at = from_ms time }, true)

    unfoldable pub on_user_data_event : OrderManager W → J → OrderManager W × Result (Unit {0})
    on_user_data_event m e = elim (value_text e "e" "") [
      | none ↦ (m, throw (failure "type_error"))
      | some kind ↦
          if not (str_eq kind "executionReport") then (m, ok tt) else elim (value_text e "c" "") [
            | none ↦ (m, throw (failure "type_error"))
            | some id ↦
                if str_eq id ""
                then (m, ok tt)
                else (let (u, complete) = apply_report e id (entry_at m id) in
                    let stored = record m { orders = insert id u m.orders } in
                    if complete
                    then (publish stored u, ok tt)
                    else (stored, throw (failure "type_error")))
          ]
    ]

  -- `cancel`: `accepted` is false where the request to the exchange throws.
  unfoldable pub cancel : OrderManager W → String → Bool → ℕ → OrderManager W × Result (Snapshot W)
  cancel m id accepted now = elim (get m id) [
    | none ↦ (m, throw (out_of_range "Unknown client order id"))
    | some o ↦
        if is_final o.state
        then (m, ok o)
        else (let c = record o { state = cancelling; updated_at = now } in
            let stored = publish (record m { orders = insert id c m.orders }) c in
            let asked : OrderManager W = record stored {
              cancel_requests = m.cancel_requests ++ (c.client_order_id ∷ []);
            } in
            if accepted then (asked, ok c) else (asked, throw (failure "cancel_order")))
  ]

  -- The orders that `activate_kill_switch` collects.
  unfoldable pub live_orders : Dict (Snapshot W) → List (Snapshot W)
  live_orders [] = []
  live_orders ((id, o) ∷ rest) = if is_live o.state then o ∷ live_orders rest else live_orders rest

  -- Its loop: an exception of one `cancel` is dropped. `accepts` is how the exchange answers.
  unfoldable pub cancel_all :
      OrderManager W → List (Snapshot W) → (String → Bool) → ℕ → OrderManager W
  cancel_all m [] accepts now = m
  cancel_all m (o ∷ os) accepts now =
      cancel_all (cancel m o.client_order_id (accepts o.client_order_id) now).0 os accepts now

  unfoldable pub activate_kill_switch : OrderManager W → (String → Bool) → ℕ → OrderManager W
  activate_kill_switch m accepts now =
      cancel_all (record m { kill_switch = true }) (live_orders m.orders) accepts now

  unfoldable pub any_unresolved : Dict (Snapshot W) → Bool
  any_unresolved [] = false
  any_unresolved ((id, o) ∷ rest) = is_unresolved o.state || any_unresolved rest

  unfoldable pub clear_kill_switch_for_reconciled_resume :
      OrderManager W → OrderManager W × Result (Unit {0})
  clear_kill_switch_for_reconciled_resume m =
      if not m.reconciled
      then (m, throw (logic_error "Cannot resume before reconciliation"))
      else if any_unresolved m.orders
      then (m, throw (logic_error "Cannot resume with unresolved orders"))
      else (record m { kill_switch = false }, ok tt)
