-- ===== src/Tests/Order.antt =====
-- Runs of the order manager and of the ledger.
use sentum.Prelude.{ℕ, ◌≡◌, refl, ◌⊎◌, true, false, none, some, [], ◌∷◌, ◌++◌, if◌then◌else◌}
use sentum.Prelude.Dict.{lookup, str_eq}
use sentum.Float.{one}
use sentum.Float.Fixed.{Fixed, fixed_double}
use sentum.Order.Types.{
  buy, filled, acknowledged, exchange_confirmed_fill, Request, Snapshot, new_snapshot,
}
use sentum.Order.Json.{Json}
use sentum.Order.Manager.{
  OrderManager, ok, failed, answered, submit_begin, submit_finish, activate_kill_switch,
  live_orders, on_user_data_event, parse, clear_kill_switch_for_reconciled_resume,
}
use sentum.Order.Manager.KillSwitch.{
  halted, map_order, ids, AllFinal, activate_kill_switch_halts, resume_only_resolved,
}
use sentum.Order.Manager.Lifecycle.{
  IsAcceptable, first_snapshot, submit_begin_cases, submit_finish_cases,
  late_acknowledgement_unfills, Updated, Answered, IsReport,
}
use sentum.Order.Ledger.{on_order_update, expected, confirmed_fill_lem}
use sentum.Order.Session.{
  Session, Connection, new_session, is_ready, resume_after_reconcile, resume_after_reconcile_cases,
}
use sentum.Tests.{dollars}

abbrev request : Request Fixed
request = record { symbol = "BTCUSDC"; side = buy; quantity = one; client_order_id = "a" }

abbrev done : Snapshot Fixed
done = record new_snapshot {
  symbol = "BTCUSDC";
  client_order_id = "a";
  exchange_order_id = 7;
  state = filled;
  requested_quantity = one;
  executed_quantity = one;
  average_fill_price = dollars 100;
}

abbrev live : Snapshot Fixed
live = record new_snapshot { symbol = "BTCUSDC"; client_order_id = "b"; state = acknowledged }

abbrev manager : OrderManager Fixed
manager = record {
  orders = ("b", live) ∷ [];
  reconciled = true;
  kill_switch = false;
  published = [];
  cancel_requests = [];
}

-- The exchange has reported the fill before it answers the request.
abbrev early : OrderManager Fixed
early = record manager { orders = ("a", done) ∷ [] }

abbrev document : Json ℕ Fixed
document = record {
  value_text = λ j key fallback. some fallback;
  value_int = λ j key fallback. some 7;
  field = λ j key. none;
  number = λ j. none;
  elements = λ j. some [];
  stod = λ text. none;
}

activate_kill_switch_halts_example :
    let after = activate_kill_switch manager (λ id. true) 9 in
    (lookup "b" after.orders ≡ map_order (halted 9) (lookup "b" manager.orders))
    × (after.cancel_requests ≡ [] ++ ids (live_orders manager.orders))
    × (after.kill_switch ≡ true)
unfolding lookup
activate_kill_switch_halts_example =
    activate_kill_switch_halts manager (λ id. true) 9 "b" (refl, refl, tt)

resume_only_resolved_example :
    let (after, result) = clear_kill_switch_for_reconciled_resume early in
    ((early.reconciled ≡ true)
      × AllFinal early.orders
      × (result ≡ ok tt)
      × (after ≡ record early { kill_switch = false }))
    ⊎ ((((early.reconciled ≡ true) × AllFinal early.orders) → ⊥)
        × (failed result ≡ true)
        × (after ≡ early))
resume_only_resolved_example = resume_only_resolved early

submit_begin_cases_example :
    let (after, result) = submit_begin manager request 9 in
    (IsAcceptable manager request
      × (result ≡ ok (first_snapshot request 9))
      × (lookup "b" after.orders
          ≡ (if str_eq "a" "b" then some (first_snapshot request 9) else lookup "b" manager.orders))
      × (after.published ≡ [] ++ (first_snapshot request 9 ∷ [])))
    ⊎ ((IsAcceptable manager request → ⊥) × (failed result ≡ true) × (after ≡ manager))
submit_begin_cases_example = submit_begin_cases manager request 9 "b"

submit_finish_cases_example :
    Updated early "a" "a" (submit_finish document early request (answered 0) 9) (Answered 9)
submit_finish_cases_example = submit_finish_cases document early request (answered 0) 9 "a"

-- The stream reports the fill of order 7; document 1 is the report.
abbrev stream : Json ℕ Fixed
stream = record document {
  value_text = λ j key fallback.
      if str_eq key "e"
      then some "executionReport"
      else if str_eq key "c"
      then some "a"
      else if str_eq key "X"
      then some "FILLED"
      else if str_eq key "r"
      then some ""
      else some "BUY";
  field = λ j key. some j;
  number = λ j. some one;
}

report : IsReport stream 1 "a" "BUY" 7 7 "BUY" "FILLED"
report = record {
  kind = refl;
  id_is = refl;
  id_given = refl;
  symbol_is = λ fallback. refl;
  order_id_is = λ fallback. refl;
  side_is = refl;
  status_is = refl;
  reason_is = refl;
  time_is = refl;
}

late_acknowledgement_unfills_example :
    let reported_in = (on_user_data_event stream early 1).0 in
    let after = (submit_finish stream reported_in request (answered 0) 9).0 in
    (first : Snapshot Fixed) × ((late : Snapshot Fixed) × (lookup "a" reported_in.orders
        ≡ some first)
      × (exchange_confirmed_fill first ≡ true)
      × (lookup "a" after.orders ≡ some late)
      × (exchange_confirmed_fill late ≡ false)
      × (late.executed_quantity ≡ first.executed_quantity))
unfolding lookup parse
late_acknowledgement_unfills_example =
    late_acknowledgement_unfills stream report early request 0 9 7 refl refl refl refl refl

confirmed_fill_lem_example :
    lookup "BTCUSDC" (on_order_update [] done)
    ≡ (if str_eq "BTCUSDC" "BTCUSDC" then expected [] done buy else lookup "BTCUSDC" [])
confirmed_fill_lem_example = confirmed_fill_lem [] done "BTCUSDC" refl

abbrev session : Session Fixed
session = record new_session { started = true; manager = manager }

abbrev connection : Connection ℕ
connection = record {
  open_orders = answered 0;
  created_key = some "key";
  stream_starts = true;
  order_time = 10;
  steady_time = 11;
}

resume_after_reconcile_cases_example :
    let (after, done) =
      resume_after_reconcile document session "I_CONFIRM_RECONCILED_TESTNET_RESUME"
        (answered 0)
        9
        connection in
    ((done ≡ true)
      × (str_eq "I_CONFIRM_RECONCILED_TESTNET_RESUME" "I_CONFIRM_RECONCILED_TESTNET_RESUME" ≡ true)
      × (session.started ≡ true)
      × (is_ready after ≡ true))
    ⊎ ((done ≡ false) × ((after ≡ session) ⊎ (after.ready ≡ false)))
resume_after_reconcile_cases_example =
    resume_after_reconcile_cases document session "I_CONFIRM_RECONCILED_TESTNET_RESUME" (answered 0)
      9 connection
