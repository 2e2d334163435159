-- ===== src/Order/Session.antt =====
-- src/sentum/trader/order/LiveOrderSession.hpp: the order manager with the stream of the exchange's reports.
-- What the exchange answers is an argument: `none` for a listen key, and `false` for a call, is an exception.
-- The supervisor thread is a series of rounds, each a step; the ledger is that of all published updates.
use sentum.Prelude.{
  ℕ, ◌*◌, ◌≡◌, refl, ◌⊎◌, inl, inr, String, Bool, true, false, not, ◌&&◌, ◌||◌, Option, none, some,
  [], if◌then◌else◌, arith, if-elim,
}
use sentum.Prelude.Dict.{str_eq}
use sentum.Clock.{from_seconds, younger_than}
use sentum.Float.{Double}
use sentum.Order.Types.{Request, Snapshot}
use sentum.Order.Json.{Json}
use sentum.Order.Manager.{
  OrderManager, Result, ok, throw, failure, logic_error, failed, Answer, new_manager, submit_begin,
  activate_kill_switch, reconcile_startup, clear_kill_switch_for_reconciled_resume,
}
use sentum.Order.Ledger.{Ledger, replay}

pub record Session (W : Type 0) : Type 0 where
  pub manager : OrderManager W
  pub started : Bool
  pub ready : Bool
  pub supervising : Bool
  pub listen_key : String
  pub streaming : Bool
  pub last_keepalive : ℕ

-- What the exchange does during `recover_stream`.
pub record Connection (J : Type 0) : Type 0 where
  pub open_orders : Answer J
  pub created_key : Option String
  pub stream_starts : Bool
  pub order_time : ℕ
  pub steady_time : ℕ

module _ {W : Type 0} ⦃d : Double W⦄ where
  abbrev pub new_session : Session W
  new_session = record {
    manager = new_manager;
    started = false;
    ready = false;
    supervising = false;
    listen_key = "";
    streaming = false;
    last_keepalive = 0;
  }

  abbrev pub killed : Session W → Bool
  killed s = s.manager.kill_switch

  abbrev pub is_ready : Session W → Bool
  is_ready s = s.ready && not s.manager.kill_switch

  abbrev pub confirmed_positions : Session W → Ledger W
  confirmed_positions s = replay [] s.manager.published

  -- The part of `submit` before the request to the exchange.
  unfoldable pub submit_order : Session W → Request W → ℕ → Session W × Result (Snapshot W)
  submit_order s request now =
      if not s.started || not (is_ready s)
      then (s, throw (logic_error "Live order session is not reconciled and ready"))
      else (let (manager, answer) = submit_begin s.manager request now in
          (record s { manager = manager }, answer))

  unfoldable pub kill_session : Session W → (String → Bool) → ℕ → Session W
  kill_session s accepts now = record s {
    manager = activate_kill_switch s.manager accepts now;
    ready = false;
  }

  unfoldable pub stop_session : Session W → (String → Bool) → ℕ → Session W
  stop_session s accepts now = if not s.started then s else record s {
    started = false;
    manager = activate_kill_switch s.manager accepts now;
    ready = false;
    supervising = false;
    streaming = false;
  }

  -- `recover_stream` from the answer of `create_listen_key` on.
  unfoldable pub open_stream : Session W → Option String → Bool → ℕ → Session W × Result (Unit {0})
  open_stream s none starts now = (record s { streaming = false }, throw (failure "listen key"))
  open_stream s (some key) starts now =
      if starts
      then (
        record s {
          listen_key = key;
          streaming = true;
          last_keepalive = now;
          ready = not s.manager.kill_switch;
        },
        ok tt,
      )
      else (record s { listen_key = key; streaming = false }, throw (failure "stream"))

  module _ {J : Type 0} (json : Json J W) where
    unfoldable pub after_reconciling :
        Session W → Result (Unit {0}) → Connection J → Session W × Result (Unit {0})
    after_reconciling s (throw e) c = (s, throw e)
    after_reconciling s (ok done) c = open_stream s c.created_key c.stream_starts c.steady_time

    unfoldable pub recover_stream : Session W → Connection J → Session W × Result (Unit {0})
    recover_stream s c =
        let (manager, result) = reconcile_startup json s.manager c.open_orders c.order_time in
        after_reconciling (record s { ready = false; manager = manager }) result c

    -- `start`: after an exception the session counts as started all the same.
    unfoldable pub start_session : Session W → Connection J → Session W × Result (Unit {0})
    start_session s c =
        if s.started
        then (s, ok tt)
        else (let (s, result) = recover_stream (record s { started = true }) c in
            (record s { supervising = not (failed result) || s.supervising }, result))

    -- `resume_after_reconcile` from the answer of the second reconciliation on.
    unfoldable pub finish_resume : Session W × Result (Unit {0}) → Session W × Bool
    finish_resume (s, throw e) = (record s { ready = false }, false)
    finish_resume (s, ok done) =
        let (manager, result) = clear_kill_switch_for_reconciled_resume s.manager in
        if failed result
        then (record s { manager = manager; ready = false }, false)
        else (record s { manager = manager; ready = true }, true)

    unfoldable pub resume_after_reconcile :
        Session W → String → Answer J → ℕ → Connection J → Session W × Bool
    resume_after_reconcile s confirmation open_orders now c =
        if not (str_eq confirmation "I_CONFIRM_RECONCILED_TESTNET_RESUME") || not s.started
        then (s, false)
        else (let (manager, result) = reconcile_startup json s.manager open_orders now in
            let reconciled : Session W = record s { manager = manager } in
            if failed result
            then (record reconciled { ready = false }, false)
            else finish_resume (recover_stream reconciled c))

    -- One round of the supervisor, after its sleep. `kept` says whether the keep-alive went through.
    unfoldable pub supervise : Session W → ℕ → Bool → (String → Bool) → ℕ → Connection J → Session W
    supervise s now kept accepts order_time c =
        if not s.supervising
        then s
        else if younger_than now s.last_keepalive (from_seconds (25 * 60))
        then s
        else if kept
        then record s { last_keepalive = now }
        else (recover_stream
            (record s {
              ready = false;
              manager = activate_kill_switch s.manager accepts order_time;
            })
            c).0

    resumed :
        (o : Session W × Result (Unit {0}))
        → let (after, done) = finish_resume o in
          ((done ≡ true) × (is_ready after ≡ true)) ⊎ ((done ≡ false) × (after.ready ≡ false))
    unfolding finish_resume clear_kill_switch_for_reconciled_resume
    resumed (s, throw e) = inr (refl, refl)
    resumed (s, ok done) = ground arith

    -- Resuming succeeds only with the exact confirmation on a started session, and leaves it ready for orders;
    -- where it fails, the session is as it was or not ready.
    pub resume_after_reconcile_cases :
        (s : Session W) (confirmation : String) (open_orders : Answer J) (now : ℕ)
        (c : Connection J)
        → let (after, done) = resume_after_reconcile s confirmation open_orders now c in
          ((done ≡ true)
            × (str_eq confirmation "I_CONFIRM_RECONCILED_TESTNET_RESUME" ≡ true)
            × (s.started ≡ true)
            × (is_ready after ≡ true))
          ⊎ ((done ≡ false) × ((after ≡ s) ⊎ (after.ready ≡ false)))
    unfolding resume_after_reconcile
    resume_after_reconcile_cases s confirmation open_orders now c =
        let Fine : Session W × Bool → Type 0 = λ o.
          ((o.1 ≡ true)
            × (str_eq confirmation "I_CONFIRM_RECONCILED_TESTNET_RESUME" ≡ true)
            × (s.started ≡ true)
            × (is_ready o.0 ≡ true))
          ⊎ ((o.1 ≡ false) × ((o.0 ≡ s) ⊎ (o.0.ready ≡ false))) in
        let (manager, result) = reconcile_startup json s.manager open_orders now in
        let reconciled : Session W = record s { manager = manager } in
        if-elim Fine
          (not (str_eq confirmation "I_CONFIRM_RECONCILED_TESTNET_RESUME") || not s.started)
          (λ _. inr (refl, inl refl))
          (λ let_in.
            if-elim Fine (failed result) (λ _. inr (refl, inr refl))
              (λ _. elim (resumed (recover_stream reconciled c)) [
                | inl (success, able) ↦
                    inl (success, ground (arith, let_in), ground (arith, let_in), able)
                | inr (undone, unready) ↦ inr (undone, inr unready)
              ]))
