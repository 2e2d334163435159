-- ===== src/Order/Ledger.antt =====
-- src/sentum/trader/order/ConfirmedPositionLedger.hpp: what the program owns, by confirmed fills only.
use sentum.Prelude.{
  ℕ, ◌≡◌, refl, ap, ◌∙◌, String, true, false, not, Option, none, some, List, [], ◌∷◌, arith, eq_iff,
  if◌then◌else◌, Option-cases, inl, inr,
}
use sentum.Prelude.Dict.{Dict, lookup, insert, erase, str_eq, lookup-insert, lookup-erase}
use sentum.Float.{Double, ◌⊕◌, ◌⊖◌, ◌⊗◌, ◌⊘◌, le, gt, nought}
use sentum.Order.Types.{Side, buy, sell, Snapshot, exchange_confirmed_fill}

pub record ConfirmedPosition (W : Type 0) : Type 0 where
  pub symbol : String
  pub quantity : W
  pub average_entry_price : W
  pub entry_exchange_order_id : ℕ
  pub entry_client_order_id : String

abbrev pub Ledger : Type 0 → Type 0
Ledger W = Dict (ConfirmedPosition W)

module _ {W : Type 0} ⦃d : Double W⦄ where
  abbrev pub new_position : ConfirmedPosition W
  new_position = record {
    symbol = "";
    quantity = nought;
    average_entry_price = nought;
    entry_exchange_order_id = 0;
    entry_client_order_id = "";
  }

  abbrev pub or_new : Option (ConfirmedPosition W) → ConfirmedPosition W
  or_new none = new_position
  or_new (some p) = p

  -- `positions_[symbol]`.
  abbrev pub position_at : Ledger W → String → ConfirmedPosition W
  position_at l symbol = or_new (lookup symbol l)

  -- A position after a further confirmed purchase.
  abbrev pub bought : ConfirmedPosition W → Snapshot W → ConfirmedPosition W
  bought p order =
      let previous_quote = p.quantity ⊗ p.average_entry_price in
      let added_quote = order.executed_quantity ⊗ order.average_fill_price in
      let quantity = p.quantity ⊕ order.executed_quantity in
      record {
        symbol = order.symbol;
        quantity = quantity;
        average_entry_price =
            if gt quantity nought then (previous_quote ⊕ added_quote) ⊘ quantity else nought;
        entry_exchange_order_id = order.exchange_order_id;
        entry_client_order_id = order.client_order_id;
      }

  unfoldable pub on_sell : Ledger W → Snapshot W → Ledger W
  on_sell l order = elim (lookup order.symbol l) [
    | none ↦ l
    | some p ↦
        let quantity = p.quantity ⊖ order.executed_quantity in
        if le quantity (d.lit 1 12)
        then erase order.symbol l
        else insert order.symbol (record p { quantity = quantity }) l
  ]

  unfoldable pub on_side : Ledger W → Snapshot W → Side → Ledger W
  unfolding on_sell
  on_side l order buy = insert order.symbol (bought (position_at l order.symbol) order) l
  on_side l order sell = on_sell l order

  unfoldable pub on_order_update : Ledger W → Snapshot W → Ledger W
  unfolding on_side
  on_order_update l order =
      if not (exchange_confirmed_fill order) then l else on_side l order order.side

  unfoldable pub replay : Ledger W → List (Snapshot W) → Ledger W
  replay l [] = l
  replay l (s ∷ rest) = replay (on_order_update l s) rest

  -- What a confirmed sale leaves of a position.
  abbrev pub sold : Option (ConfirmedPosition W) → Snapshot W → Option (ConfirmedPosition W)
  sold none order = none
  sold (some p) order =
      let quantity = p.quantity ⊖ order.executed_quantity in
      if le quantity (d.lit 1 12) then none else some (record p { quantity = quantity })

  -- The quantity and the average price of a position, none counting as 0.
  abbrev pub held_at : Option (ConfirmedPosition W) → W
  held_at none = nought
  held_at (some p) = p.quantity

  abbrev pub price_at : Option (ConfirmedPosition W) → W
  price_at none = nought
  price_at (some p) = p.average_entry_price

  -- What a confirmed purchase makes of a held quantity at an average price.
  abbrev pub bought_into : W → W → Snapshot W → ConfirmedPosition W
  bought_into held price order = record {
    symbol = order.symbol;
    quantity = held ⊕ order.executed_quantity;
    average_entry_price =
        if gt (held ⊕ order.executed_quantity) nought
        then ((held ⊗ price) ⊕ (order.executed_quantity ⊗ order.average_fill_price))
          ⊘ (held ⊕ order.executed_quantity)
        else nought;
    entry_exchange_order_id = order.exchange_order_id;
    entry_client_order_id = order.client_order_id;
  }

  bought_lem :
      (old : Option (ConfirmedPosition W)) (order : Snapshot W)
      → bought (or_new old) order ≡ bought_into (held_at old) (price_at old) order
  bought_lem none order = refl
  bought_lem (some p) order = refl

  abbrev pub expected : Ledger W → Snapshot W → Side → Option (ConfirmedPosition W)
  expected l order buy =
      some (bought_into (held_at (lookup order.symbol l)) (price_at (lookup order.symbol l)) order)
  expected l order sell = sold (lookup order.symbol l) order

  -- A confirmed fill changes the position of its symbol and no other one: a purchase adds to it at the
  -- average price, a sale takes from it and closes it when no more than 1e-12 is left.
  pub confirmed_fill_lem :
      (l : Ledger W) (order : Snapshot W) (j : String)
      → exchange_confirmed_fill order ≡ true
      → lookup j (on_order_update l order)
        ≡ (if str_eq order.symbol j then expected l order order.side else lookup j l)
  unfolding on_order_update on_side
  confirmed_fill_lem l order j h = rw h (by_side order.side)
    where
      by_side :
          (s : Side)
          → lookup j (on_side l order s)
            ≡ (if str_eq order.symbol j then expected l order s else lookup j l)
      by_side buy =
          lookup-insert order.symbol j (bought (position_at l order.symbol) order) l
          ∙ ap (λ p. if str_eq order.symbol j then some p else lookup j l)
              (bought_lem (lookup order.symbol l) order)
      by_side sell = elim (Option-cases (lookup order.symbol l)) [
        | inl e ↦ rw (e, on_sell) (ground (arith, eq_iff order.symbol j))
        | inr (p, e) ↦
            let left : ConfirmedPosition W = record p {
              quantity = p.quantity ⊖ order.executed_quantity;
            } in
            rw (e, on_sell)
              (ground (arith, lookup-erase order.symbol j l, lookup-insert order.symbol j left l))
      ]

  abbrev pub AllUnconfirmed : List (Snapshot W) → Type 0
  AllUnconfirmed [] = Unit
  AllUnconfirmed (s ∷ rest) = (exchange_confirmed_fill s ≡ false) × AllUnconfirmed rest

  -- Requests, acknowledgements, partial fills, cancellations and rejections, however many, leave the
  -- ledger as it is.
  pub replay_unconfirmed :
      (l : Ledger W) (ss : List (Snapshot W)) → AllUnconfirmed ss → replay l ss ≡ l
  unfolding replay on_order_update
  replay_unconfirmed l [] h = refl
  replay_unconfirmed l (s ∷ ss) h = rw h.0 (replay_unconfirmed l ss h.1)
