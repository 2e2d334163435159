-- ===== src/Order/Manager/Lifecycle.antt =====
-- src/sentum/trader/order/OrderManager.hpp: submitting an order, and what reports of the exchange do to it.
use sentum.Prelude.{
  ℕ, ◌≡◌, refl, ◌⊎◌, inl, inr, String, true, false, none, some, [], ◌∷◌, ◌++◌, arith, if◌then◌else◌,
  Option-cases, ltb,
}
use sentum.Prelude.Dict.{lookup, insert, lookup-insert, lookup-insert_self, str_eq}
use sentum.Clock.{from_ms}
use sentum.Float.{Double, ◌⊘◌, le, gt, nought}
use sentum.Order.Types.{
  pending, acknowledged, rejected, exchange_confirmed_fill, Request, Snapshot, new_snapshot,
}
use sentum.Order.Json.{Json}
use sentum.Order.Manager.{
  OrderManager, Result, ok, throw, failed, out_of_range, entry_at, update_at, rejected_at,
  acknowledged_at, Answer, answered, refused, get, publish, submit_begin, submit_finish,
  apply_report, on_user_data_event, map_state, side_of, parse,
}

module _ {W : Type 0} ⦃d : Double W⦄ where
  -- What a request must be for `submit_market` to take it.
  pub record IsAcceptable (m : OrderManager W) (r : Request W) : Type 0 where
    pub reconciled : m.reconciled ≡ true
    pub running : m.kill_switch ≡ false
    pub quantity : le r.quantity nought ≡ false
    pub named : (str_eq r.symbol "" ≡ false) × (str_eq r.client_order_id "" ≡ false)
    pub fresh : get m r.client_order_id ≡ none

  -- The order as it is first stored.
  abbrev pub first_snapshot : Request W → ℕ → Snapshot W
  first_snapshot r now = record new_snapshot {
    symbol = r.symbol;
    client_order_id = r.client_order_id;
    side = r.side;
    requested_quantity = r.quantity;
    state = pending;
    updated_at = now;
  }

  -- `submit_market` takes exactly the acceptable requests: it stores the pending order, publishes it and
  -- leaves the other orders. Any other request it refuses with the manager unchanged.
  pub submit_begin_cases :
      (m : OrderManager W) (r : Request W) (now : ℕ) (j : String)
      → let (after, result) = submit_begin m r now in
        (IsAcceptable m r
          × (result ≡ ok (first_snapshot r now))
          × (lookup j after.orders ≡ (
              if str_eq r.client_order_id j
              then some (first_snapshot r now)
              else lookup j m.orders))
          × (after.published ≡ m.published ++ (first_snapshot r now ∷ [])))
        ⊎ ((IsAcceptable m r → ⊥) × (failed result ≡ true) × (after ≡ m))
  unfolding submit_begin
  submit_begin_cases m r now j = elim (Option-cases (get m r.client_order_id)) [
    | inl e ↦
        rw (e, submit_begin)
          (ground (arith, lookup-insert r.client_order_id j (first_snapshot r now) m.orders))
    | inr (o, e) ↦ rw (e, submit_begin) (ground arith)
  ]

  update_at_known :
      (m : OrderManager W) (id : String) (change : Snapshot W → Snapshot W) (o : Snapshot W)
      → lookup id m.orders ≡ some o
      → update_at m id change
        ≡ (publish (record m { orders = insert id (change o) m.orders }) (change o), ok (change o))
  unfolding update_at
  update_at_known m id change o e = rw (e, update_at) refl

  -- The order is stored and published, and no other one changes; or it is not there.
  abbrev pub Updated :
      OrderManager W
      → String
      → String
      → OrderManager W × Result (Snapshot W)
      → (Snapshot W → Snapshot W → Type 0)
      → Type 0
  Updated m id j o How =
      ((old : Snapshot W) × ((new : Snapshot W) × (lookup id m.orders ≡ some old)
          × How old new
          × (o.1 ≡ ok new)
          × (lookup j o.0.orders ≡ (if str_eq id j then some new else lookup j m.orders))
          × (o.0.published ≡ m.published ++ (new ∷ []))))
      ⊎ ((lookup id m.orders ≡ none) × (o.1 ≡ throw (out_of_range "at")) × (o.0 ≡ m))

  update_at_cases :
      (m : OrderManager W) (id j : String) (change : Snapshot W → Snapshot W)
      (How : Snapshot W → Snapshot W → Type 0)
      → ((o : Snapshot W) → How o (change o))
      → Updated m id j (update_at m id change) How
  unfolding update_at
  update_at_cases m id j change How how = elim (Option-cases (lookup id m.orders)) [
    | inl e ↦ rw (e, update_at) (inr (refl, refl, refl))
    | inr (o, e) ↦
        rw (e, update_at)
          (inl (o, (change o, refl, how o, refl, lookup-insert id j (change o) m.orders, refl)))
  ]

  -- Acknowledged, or rejected under the number that it had, with its quantities as they were.
  abbrev pub Answered : ℕ → Snapshot W → Snapshot W → Type 0
  Answered now old new =
      ((new.state ≡ acknowledged)
        ⊎ ((new.state ≡ rejected) × (new.exchange_order_id ≡ old.exchange_order_id)))
      × (new.executed_quantity ≡ old.executed_quantity)
      × (new.requested_quantity ≡ old.requested_quantity)
      × (new.updated_at ≡ now)

  module _ {J : Type 0} (json : Json J W) where
    open json use {value_text, value_int}

    finish_known :
        (m : OrderManager W) (r : Request W) (ack : J) (now n : ℕ) (o : Snapshot W)
        → value_int ack "orderId" 0 ≡ some n
        → lookup r.client_order_id m.orders ≡ some o
        → let c = acknowledged_at n now o in
          submit_finish json m r (answered ack) now
          ≡ (publish (record m { orders = insert r.client_order_id c m.orders }) c, ok c)
    unfolding submit_finish
    finish_known m r ack now n o read e =
        rw (read, submit_finish) (update_at_known m r.client_order_id (acknowledged_at n now) o e)

    -- However the exchange answers, the order ends as acknowledged or rejected, its quantities unchanged, is
    -- stored and published so, and no other order changes. If the order is gone, because a reconciliation
    -- has replaced the book since the request was sent, the call throws and changes nothing.
    pub submit_finish_cases :
        (m : OrderManager W) (r : Request W) (answer : Answer J) (now : ℕ) (j : String)
        → Updated m r.client_order_id j (submit_finish json m r answer now) (Answered now)
    unfolding submit_finish
    submit_finish_cases m r (refused what) now j =
        update_at_cases m r.client_order_id j (rejected_at what now) (Answered now)
          (λ o. (inr (refl, refl), refl, refl, refl))
    submit_finish_cases m r (answered ack) now j = elim (Option-cases (value_int ack "orderId" 0)) [
      | inl e ↦
          rw (e, submit_finish)
            (update_at_cases m r.client_order_id j (rejected_at "type_error" now) (Answered now)
              (λ o. (inr (refl, refl), refl, refl, refl)))
      | inr (n, e) ↦
          rw (e, submit_finish)
            (update_at_cases m r.client_order_id j (acknowledged_at n now) (Answered now)
              (λ o. (inl refl, refl, refl, refl)))
    ]

    -- A report of a fill with every field in place is applied in full.
    pub record IsReport (e : J) (id symbol : String) (order_id time : ℕ) (side status : String)
        : Type 0 where
      pub kind : value_text e "e" "" ≡ some "executionReport"
      pub id_is : value_text e "c" "" ≡ some id
      pub id_given : str_eq id "" ≡ false
      pub symbol_is : (fallback : String) → value_text e "s" fallback ≡ some symbol
      pub order_id_is : (fallback : ℕ) → value_int e "i" fallback ≡ some order_id
      pub side_is : value_text e "S" "BUY" ≡ some side
      pub status_is : value_text e "X" "" ≡ some status
      pub reason_is : value_text e "r" "" ≡ some ""
      pub time_is : value_int e "E" 0 ≡ some time

    abbrev reported : J → Snapshot W → String → String → ℕ → ℕ → String → String → Snapshot W
    reported e old id symbol order_id time side status =
        let executed = parse json e "z" old.executed_quantity in
        let quote = parse json e "Z" old.cumulative_quote_quantity in
        record {
          symbol = symbol;
          client_order_id = id;
          exchange_order_id = order_id;
          side = side_of side;
          state = map_state status;
          requested_quantity = parse json e "q" old.requested_quantity;
          executed_quantity = executed;
          cumulative_quote_quantity = quote;
          average_fill_price = if gt executed nought then quote ⊘ executed else nought;
          rejection_reason = "";
          updated_at = from_ms time;
        }

    module _ {e : J} {id symbol : String} {order_id time : ℕ} {side status : String}
        (h : IsReport e id symbol order_id time side status) where
      apply_report_lem :
          (c : Snapshot W)
          → apply_report json e id c ≡ (reported e c id symbol order_id time side status, true)
      unfolding apply_report
      apply_report_lem c =
          rw
            (
              h.symbol_is c.symbol,
              h.order_id_is c.exchange_order_id,
              h.side_is,
              h.status_is,
              h.reason_is,
              h.time_is,
            )
            refl

      on_user_data_event_lem :
          (m : OrderManager W)
          → let new = reported e (entry_at m id) id symbol order_id time side status in
            on_user_data_event json m e
            ≡ (publish (record m { orders = insert id new m.orders }) new, ok tt)
      unfolding on_user_data_event
      on_user_data_event_lem m =
          rw (h.kind, on_user_data_event)
            (rw (h.id_is, on_user_data_event)
              (rw (h.id_given, on_user_data_event)
                (rw (apply_report_lem (entry_at m id), on_user_data_event) refl)))

      -- A complete report gives the order what it says, keeps a quantity that it does not give, works out
      -- the average price, publishes the order and leaves every other one.
      pub on_user_data_event_applies :
          (m : OrderManager W) (j : String)
          → let new = reported e (entry_at m id) id symbol order_id time side status in
            let (after, result) = on_user_data_event json m e in
            (result ≡ ok tt)
            × (lookup j after.orders ≡ (if str_eq id j then some new else lookup j m.orders))
            × (after.published ≡ m.published ++ (new ∷ []))
      on_user_data_event_applies m j =
          rw (on_user_data_event_lem m) (refl, lookup-insert id j _ m.orders, refl)

      -- A report that an order is filled, with a number and a quantity above 0, and that comes in before the
      -- exchange has answered the request, confirms the fill; the acknowledgement that follows takes the
      -- confirmation back, with the quantity of the fill kept.
      pub late_acknowledgement_unfills :
          (m : OrderManager W) (r : Request W) (ack : J) (now acknowledged_id : ℕ)
          → r.client_order_id ≡ id
          → status ≡ "FILLED"
          → ltb 0 order_id ≡ true
          → gt (parse json e "z" (entry_at m id).executed_quantity) nought ≡ true
          → value_int ack "orderId" 0 ≡ some acknowledged_id
          → let reported_in = (on_user_data_event json m e).0 in
            let after = (submit_finish json reported_in r (answered ack) now).0 in
            (early : Snapshot W) × ((late : Snapshot W) × (lookup id reported_in.orders
                ≡ some early)
              × (exchange_confirmed_fill early ≡ true)
              × (lookup id after.orders ≡ some late)
              × (exchange_confirmed_fill late ≡ false)
              × (late.executed_quantity ≡ early.executed_quantity))
      unfolding map_state
      late_acknowledgement_unfills m r ack now acknowledged_id same full numbered positive read =
          let new = reported e (entry_at m id) id symbol order_id time side status in
          let late = acknowledged_at acknowledged_id now new in
          let stored : OrderManager W =
            publish (record m { orders = insert id new m.orders }) new in
          let found : lookup id stored.orders ≡ some new = lookup-insert_self id new m.orders in
          let confirmed : exchange_confirmed_fill new ≡ true =
            rw full (ground (arith, positive, numbered)) in
          let known : lookup r.client_order_id stored.orders ≡ some new = rw same found in
          rw
            (on_user_data_event_lem m, finish_known stored r ack now acknowledged_id new read known)
            (
              new,
              (
                late,
                found,
                confirmed,
                rw same (lookup-insert_self id late stored.orders),
                refl,
                refl,
              ),
            )
