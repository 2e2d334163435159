-- ===== src/Market/Bus.antt =====
-- src/sentum/market/MarketEventBus.hpp: the subscribers of market events. A handler is a value of any type, and
-- publishing lists the handlers that are called; the order of the map is that of the list here. `next_id_` has
-- 64 bits; `emplace` leaves a number that is taken.
use sentum.Prelude.{
  ℕ, ◌+◌, ◌%◌, ◌^◌, ◌≡◌, refl, Bool, true, ◌&&◌, List, [], ◌∷◌, ◌++◌, if◌then◌else◌, ◌==◌, ltb, ap,
  ◌∙◌, arith,
}
use mathlib.Core.List.{append-nil}

pub record MarketEventBus (H : Type 0) : Type 0 where
  pub handlers : List (ℕ × H)
  pub next_id : ℕ

module _ {H : Type 0} where
  abbrev pub new_bus : MarketEventBus H
  new_bus = record { handlers = []; next_id = 1 }

  unfoldable pub add_handler : ℕ → H → List (ℕ × H) → List (ℕ × H)
  add_handler id handler [] = (id, handler) ∷ []
  add_handler id handler ((key, old) ∷ rest) =
      let deeper = add_handler id handler rest in
      if key == id then (key, old) ∷ rest else (key, old) ∷ deeper

  unfoldable pub subscribe : MarketEventBus H → H → MarketEventBus H × ℕ
  subscribe b handler = (
    record {
      handlers = add_handler b.next_id handler b.handlers;
      next_id = (b.next_id + 1) % 2 ^ 64;
    },
    b.next_id,
  )

  unfoldable pub remove_handler : ℕ → List (ℕ × H) → List (ℕ × H)
  remove_handler id [] = []
  remove_handler id ((key, handler) ∷ rest) =
      let kept = remove_handler id rest in if key == id then kept else (key, handler) ∷ kept

  unfoldable pub unsubscribe : MarketEventBus H → ℕ → MarketEventBus H
  unsubscribe b id = record b { handlers = remove_handler id b.handlers }

  -- The handlers that `publish` calls.
  unfoldable pub called : List (ℕ × H) → List H
  called [] = []
  called ((key, handler) ∷ rest) = handler ∷ called rest

  unfoldable pub publish : MarketEventBus H → List H
  publish b = called b.handlers

  -- A number that was given out already, as long as fewer than 2 ^ 64 were.
  abbrev pub all_below : ℕ → List (ℕ × H) → Bool
  all_below bound [] = true
  all_below bound ((key, handler) ∷ rest) = ltb key bound && all_below bound rest

  add_handler_new :
      (id : ℕ) (handler : H) (rest : List (ℕ × H))
      → all_below id rest ≡ true
      → add_handler id handler rest ≡ rest ++ ((id, handler) ∷ [])
  unfolding add_handler
  add_handler_new id handler [] h = refl
  add_handler_new id handler ((key, old) ∷ rest) h = ground (arith, add_handler_new id handler rest)

  remove_handler_none :
      (id : ℕ) (rest : List (ℕ × H)) → all_below id rest ≡ true → remove_handler id rest ≡ rest
  unfolding remove_handler
  remove_handler_none id [] h = refl
  remove_handler_none id ((key, handler) ∷ rest) h = ground (arith, remove_handler_none id rest)

  remove_handler-append :
      (id : ℕ) (xs ys : List (ℕ × H))
      → remove_handler id (xs ++ ys) ≡ remove_handler id xs ++ remove_handler id ys
  unfolding remove_handler
  remove_handler-append id [] ys = refl
  remove_handler-append id ((key, handler) ∷ xs) ys = ground (arith, remove_handler-append id xs ys)

  only : (id : ℕ) (handler : H) → remove_handler id ((id, handler) ∷ []) ≡ []
  unfolding remove_handler
  only id handler = ground arith

  -- Taking a new subscription back leaves the subscribers as they were.
  pub unsubscribe-subscribe :
      (b : MarketEventBus H) (handler : H)
      → all_below b.next_id b.handlers ≡ true
      → let (subscribed, id) = subscribe b handler in
        (unsubscribe subscribed id).handlers ≡ b.handlers
  unfolding subscribe unsubscribe
  unsubscribe-subscribe b handler h =
      ap (remove_handler b.next_id) (add_handler_new b.next_id handler b.handlers h)
      ∙ remove_handler-append b.next_id b.handlers ((b.next_id, handler) ∷ [])
      ∙ rw (remove_handler_none b.next_id b.handlers h, only b.next_id handler)
          (append-nil b.handlers)
