-- ===== src/Order/Manager/KillSwitch.antt =====
-- src/sentum/trader/order/OrderManager.hpp: what `activate_kill_switch` does to every order, and when
-- trading may resume.
use mathlib.Core.Path.{subst}
use mathlib.Core.List.{append-nil, append_assoc}
use sentum.Prelude.{
  ℕ, ◌≡◌, refl, sym, ap, ◌∙◌, map, ◌++◌, if-elim, ◌⊎◌, String, Bool, true, false, Option, none,
  some, List, [], ◌∷◌, ◌||◌, arith, eq_iff, if◌then◌else◌, Option-cases, Bool-cases, inl, inr,
}
use sentum.Prelude.Dict.{Dict, lookup, lookup-insert, str_eq}
use sentum.Float.{Double}
use sentum.Order.Types.{cancelling, is_live, is_final, Request, Snapshot}
use sentum.Order.Manager.{
  OrderManager, Result, ok, failed, cancel, cancel_all, live_orders, activate_kill_switch,
  submit_begin, any_unresolved, clear_kill_switch_for_reconciled_resume,
}

module _ {W : Type 0} ⦃d : Double W⦄ where
  -- The book is a map: each order stands once, under its own client order id.
  abbrev pub IsBook : Dict (Snapshot W) → Type 0
  IsBook [] = Unit
  IsBook ((k, o) ∷ rest) = (o.client_order_id ≡ k) × (lookup k rest ≡ none) × IsBook rest

  -- What cancelling does to one order.
  abbrev pub stopped : ℕ → Snapshot W → Snapshot W
  stopped now o = if is_final o.state then o else record o { state = cancelling; updated_at = now }

  -- What the kill switch does to one order.
  abbrev pub halted : ℕ → Snapshot W → Snapshot W
  halted now o = if is_live o.state then record o { state = cancelling; updated_at = now } else o

  abbrev pub map_order : (Snapshot W → Snapshot W) → Option (Snapshot W) → Option (Snapshot W)
  map_order f none = none
  map_order f (some o) = some (f o)

  lookup-cancel :
      (m : OrderManager W) (j id : String) (accepted : Bool) (now : ℕ)
      → lookup id (cancel m j accepted now).0.orders
        ≡ (if str_eq j id then map_order (stopped now) (lookup id m.orders) else lookup id m.orders)
  unfolding cancel
  lookup-cancel m j id accepted now = elim (Option-cases (lookup j m.orders)) [
    | inl e ↦ rw (e, cancel) (ground (arith, eq_iff j id))
    | inr (o, e) ↦
        let c : Snapshot W = record o { state = cancelling; updated_at = now } in
        rw (e, cancel) (ground (arith, eq_iff j id, lookup-insert j id c m.orders))
  ]

  abbrev contains : String → List (Snapshot W) → Bool
  contains id [] = false
  contains id (o ∷ os) = str_eq o.client_order_id id || contains id os

  stopped_idem :
      (now : ℕ) (x : Option (Snapshot W))
      → map_order (stopped now) (map_order (stopped now) x) ≡ map_order (stopped now) x
  stopped_idem now none = refl
  stopped_idem now (some o) = ground arith

  lookup-cancel_all :
      (m : OrderManager W) (os : List (Snapshot W)) (accepts : String → Bool) (now : ℕ)
      (id : String)
      → lookup id (cancel_all m os accepts now).orders ≡ (
          if contains id os
          then map_order (stopped now) (lookup id m.orders)
          else lookup id m.orders)
  unfolding cancel_all
  lookup-cancel_all m [] accepts now id = refl
  lookup-cancel_all m (o ∷ os) accepts now id =
      rw
        (
          lookup-cancel_all (cancel m o.client_order_id (accepts o.client_order_id) now).0 os
              accepts now id,
          lookup-cancel m o.client_order_id id (accepts o.client_order_id) now,
        )
        (ground (arith, stopped_idem now (lookup id m.orders)))

  abbrev live_at : Option (Snapshot W) → Bool
  live_at none = false
  live_at (some o) = is_live o.state

  contains-live_orders :
      (book : Dict (Snapshot W)) (id : String)
      → IsBook book
      → contains id (live_orders book) ≡ live_at (lookup id book)
  unfolding live_orders lookup
  contains-live_orders [] id b = refl
  contains-live_orders ((k, o) ∷ rest) id b =
      ground (arith, contains-live_orders rest id b.2, eq_iff k id, eq_iff o.client_order_id id)

  abbrev IsOpen : String → Option (Snapshot W) → Type 0
  IsOpen id none = ⊥
  IsOpen id (some o) = (o.client_order_id ≡ id) × (is_final o.state ≡ false)

  -- Each of the orders is in the book under its id, and not done.
  abbrev AllOpen : Dict (Snapshot W) → List (Snapshot W) → Type 0
  AllOpen book [] = Unit
  AllOpen book (o ∷ os) = IsOpen o.client_order_id (lookup o.client_order_id book) × AllOpen book os

  IsOpen-stopped :
      (now : ℕ) (id : String) (x : Option (Snapshot W))
      → IsOpen id x
      → IsOpen id (map_order (stopped now) x)
  IsOpen-stopped now id none h = h
  IsOpen-stopped now id (some o) (same, h) = rw h (same, refl)

  cancel-AllOpen :
      (m : OrderManager W) (j : String) (accepted : Bool) (now : ℕ) (os : List (Snapshot W))
      → AllOpen m.orders os
      → AllOpen (cancel m j accepted now).0.orders os
  cancel-AllOpen m j accepted now [] h = tt
  cancel-AllOpen m j accepted now (o ∷ os) (here, later) = (
    rw (lookup-cancel m j o.client_order_id accepted now) (
        if-elim (IsOpen o.client_order_id) (str_eq j o.client_order_id)
          (λ _. IsOpen-stopped now o.client_order_id (lookup o.client_order_id m.orders) here)
          (λ _. here)),
    cancel-AllOpen m j accepted now os later,
  )

  cancel_requested :
      (m : OrderManager W) (j : String) (accepted : Bool) (now : ℕ)
      → IsOpen j (lookup j m.orders)
      → (cancel m j accepted now).0.cancel_requests ≡ m.cancel_requests ++ (j ∷ [])
  unfolding cancel
  cancel_requested m j accepted now h = elim (Option-cases (lookup j m.orders)) [
    | inl e ↦ absurd (subst (IsOpen j) e h)
    | inr (o, e) ↦
        let (same, live) = subst (IsOpen j) e h in
        rw (e, cancel)
          (rw live (
            if-elim
              (λ (r : OrderManager W × Result (Snapshot W)).
                r.0.cancel_requests ≡ m.cancel_requests ++ (j ∷ []))
              accepted (λ _. rw same refl) (λ _. rw same refl)))
  ]

  abbrev pub ids : List (Snapshot W) → List String
  ids = map (λ o. o.client_order_id)

  cancel_all_requested :
      (m : OrderManager W) (os : List (Snapshot W)) (accepts : String → Bool) (now : ℕ)
      → AllOpen m.orders os
      → (cancel_all m os accepts now).cancel_requests ≡ m.cancel_requests ++ ids os
  unfolding cancel_all
  cancel_all_requested m [] accepts now h = sym (append-nil m.cancel_requests)
  cancel_all_requested m (o ∷ os) accepts now (here, later) =
      let id = o.client_order_id in
      cancel_all_requested (cancel m id (accepts id) now).0 os accepts now
        (cancel-AllOpen m id (accepts id) now os later)
      ∙ ap (λ asked. asked ++ ids os) (cancel_requested m id (accepts id) now here)
      ∙ append_assoc m.cancel_requests (id ∷ []) (ids os)

  AllOpen-cons :
      (k : String) (x : Snapshot W) (book : Dict (Snapshot W)) (os : List (Snapshot W))
      → lookup k book ≡ none
      → AllOpen book os
      → AllOpen ((k, x) ∷ book) os
  unfolding lookup
  AllOpen-cons k x book [] new h = tt
  AllOpen-cons k x book (o ∷ os) new (here, later) = (
    elim (Bool-cases (str_eq k o.client_order_id)) [
      | inl same ↦
          let at : k ≡ o.client_order_id = ground (arith, eq_iff k o.client_order_id) in
          absurd (subst (IsOpen o.client_order_id) (ap (λ i. lookup i book) (sym at) ∙ new) here)
      | inr other ↦ rw other here
    ],
    AllOpen-cons k x book os new later,
  )

  live_orders-AllOpen : (book : Dict (Snapshot W)) → IsBook book → AllOpen book (live_orders book)
  unfolding live_orders lookup
  live_orders-AllOpen [] b = tt
  live_orders-AllOpen ((k, o) ∷ rest) (named, new, b) =
      let others = AllOpen-cons k o rest (live_orders rest) new (live_orders-AllOpen rest b) in
      elim (Bool-cases (is_live o.state)) [
        | inl live ↦ rw live (ground (arith, named, eq_iff k o.client_order_id), others)
        | inr done ↦ rw done others
      ]

  cancel-kill_switch :
      (m : OrderManager W) (j : String) (accepted : Bool) (now : ℕ)
      → (cancel m j accepted now).0.kill_switch ≡ m.kill_switch
  unfolding cancel
  cancel-kill_switch m j accepted now = ground arith

  cancel_all-kill_switch :
      (m : OrderManager W) (os : List (Snapshot W)) (accepts : String → Bool) (now : ℕ)
      → (cancel_all m os accepts now).kill_switch ≡ m.kill_switch
  unfolding cancel_all
  cancel_all-kill_switch m [] accepts now = refl
  cancel_all-kill_switch m (o ∷ os) accepts now =
      cancel_all-kill_switch (cancel m o.client_order_id (accepts o.client_order_id) now).0 os
        accepts now
      ∙ cancel-kill_switch m o.client_order_id (accepts o.client_order_id) now

  -- In a book that has each order once and under its own id, the kill switch cancels every live order and
  -- leaves every other one, whatever the exchange answers; the exchange is asked to cancel exactly the live
  -- orders, once each; and the switch is on afterwards.
  pub activate_kill_switch_halts :
      (m : OrderManager W) (accepts : String → Bool) (now : ℕ) (id : String)
      → IsBook m.orders
      → let after = activate_kill_switch m accepts now in
        (lookup id after.orders ≡ map_order (halted now) (lookup id m.orders))
        × (after.cancel_requests ≡ m.cancel_requests ++ ids (live_orders m.orders))
        × (after.kill_switch ≡ true)
  unfolding activate_kill_switch
  activate_kill_switch_halts m accepts now id b =
      let on : OrderManager W = record m { kill_switch = true } in
      (
        rw
            (
              lookup-cancel_all on (live_orders m.orders) accepts now id,
              contains-live_orders m.orders id b,
            )
            (elim (Option-cases (lookup id m.orders)) [
              | inl e ↦ rw e refl
              | inr (o, e) ↦ rw e (stop_live o)
            ]),
        cancel_all_requested on (live_orders m.orders) accepts now (live_orders-AllOpen m.orders b),
        cancel_all-kill_switch on (live_orders m.orders) accepts now,
      )
    where
      stop_live :
          (o : Snapshot W)
          → (if is_live o.state then some (stopped now o) else some o) ≡ some (halted now o)
      stop_live o = ground arith

  -- While the kill switch is on no order is taken: the manager is left as it is.
  pub submit_after_kill :
      (m : OrderManager W) (accepts : String → Bool) (now later : ℕ) (r : Request W)
      → let k = activate_kill_switch m accepts now in
        let (after, result) = submit_begin k r later in (after ≡ k) × (failed result ≡ true)
  unfolding activate_kill_switch submit_begin
  submit_after_kill m accepts now later r = ground (
    arith,
    cancel_all-kill_switch (record m { kill_switch = true }) (live_orders m.orders) accepts now,
  )

  -- Every order is filled, cancelled or rejected.
  abbrev pub AllFinal : Dict (Snapshot W) → Type 0
  AllFinal [] = Unit
  AllFinal ((id, o) ∷ rest) = (is_final o.state ≡ true) × AllFinal rest

  any_unresolved-AllFinal : (book : Dict (Snapshot W)) → any_unresolved book ≡ false → AllFinal book
  unfolding any_unresolved
  any_unresolved-AllFinal [] h = tt
  any_unresolved-AllFinal ((k, x) ∷ rest) h =
      (ground arith, any_unresolved-AllFinal rest (ground arith))

  AllFinal-any_unresolved : (book : Dict (Snapshot W)) → AllFinal book → any_unresolved book ≡ false
  unfolding any_unresolved
  AllFinal-any_unresolved [] h = refl
  AllFinal-any_unresolved ((k, x) ∷ rest) h =
      let (here, later) = h in ground (arith, AllFinal-any_unresolved rest later)

  -- Trading resumes exactly after a reconciliation and with every order filled, cancelled or rejected: then
  -- only the kill switch changes, and otherwise nothing does.
  pub resume_only_resolved :
      (m : OrderManager W)
      → let (after, result) = clear_kill_switch_for_reconciled_resume m in
        ((m.reconciled ≡ true)
          × AllFinal m.orders
          × (result ≡ ok tt)
          × (after ≡ record m { kill_switch = false }))
        ⊎ ((((m.reconciled ≡ true) × AllFinal m.orders) → ⊥) × (failed result ≡ true) × (after ≡ m))
  unfolding clear_kill_switch_for_reconciled_resume
  resume_only_resolved m = elim (Bool-cases m.reconciled) [
    | inr unread ↦ inr (λ h. absurd (ground (arith, h.0, unread)), ground arith, ground arith)
    | inl ready ↦ elim (Bool-cases (any_unresolved m.orders)) [
      | inl open_order ↦ inr (
        λ h. absurd (ground (arith, AllFinal-any_unresolved m.orders h.1, open_order)),
        ground arith,
        ground arith,
      )
      | inr resolved ↦
          inl (ready, any_unresolved-AllFinal m.orders resolved, ground arith, ground arith)
    ]
  ]
