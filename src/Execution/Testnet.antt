-- ===== src/Execution/Testnet.antt =====
-- src/sentum/trader/execution/TestnetStrategyRuntime.hpp: `on_price` and `on_order_update`, with the mutex
-- that both take. The statuses that it reports are left out. The venue is a parameter: `submit` gives the
-- next state of the venue, the updates that it hands to the runtime's handler before it returns, and
-- whether it throws; so is the repository of the events, whose `save` may throw.
use sentum.Prelude.{
  ℕ, ◌/◌, ◌≡◌, refl, ◌⊎◌, inl, inr, String, Bool, true, false, not, ◌&&◌, ◌||◌, List, [], ◌∷◌,
  if◌then◌else◌, arith, ◌==◌, if-elim,
}
use Prim.Native.String.{len}
use sentum.Prelude.Text.{concat}
use sentum.Clock.{from_seconds, aged}
use sentum.Float.{Double, ◌⊕◌, ◌⊖◌, ◌⊗◌, le, ge, nought, one}
use sentum.Order.Types.{
  Side, buy, sell, State, rejected, cancelled, Request, Snapshot, exchange_confirmed_fill,
}
use sentum.Risk.Config.{RiskConfig}
use sentum.Risk.Entry.{approve_entry}
use sentum.Strategy.Types.{IStrategy, is_buy}

pub record TestnetRuntime (S V W : Type 0) : Type 0 where
  pub symbol : String
  pub risk : RiskConfig W
  pub strategy : S
  pub venue : V
  pub running : Bool
  pub locked : Bool
  pub active_order : String
  pub exit_reason : String
  pub confirmed_quantity : W
  pub entry_price : W
  pub entry_time : ℕ
  pub last_exit : ℕ

pub record Submitted (V W : Type 0) : Type 0 where
  pub venue : V
  pub updates : List (Snapshot W)
  pub thrown : Bool

pub record Environment (V W : Type 0) : Type 0 where
  pub ready : V → Bool
  pub submit : V → Request W → Submitted V W
  pub kill : V → V
  pub saved : Snapshot W → Bool
  pub decimal : ℕ → String

-- How a call ends: it returns, it throws, or it waits for the mutex that its own thread holds, for ever.
pub data Outcome (A : Type 0) : Type 0 where
  returned thrown blocked : A → Outcome A

abbrev pub is_blocked : {A : Type 0} → Outcome A → Bool
is_blocked (blocked a) = true
is_blocked _ = false

abbrev pub is_dropped : State → Bool
is_dropped rejected = true
is_dropped cancelled = true
is_dropped _ = false

module _ {S V W : Type 0} ⦃d : Double W⦄ (env : Environment V W) (strategy : IStrategy S W) where
  -- `on_order_update` under the mutex.
  unfoldable pub apply_update : TestnetRuntime S V W → Snapshot W → TestnetRuntime S V W
  apply_update r update =
      if is_dropped update.state
      then record r { active_order = "" }
      else if not (exchange_confirmed_fill update)
      then r
      else elim update.side [
        | buy ↦ record r {
          confirmed_quantity = update.executed_quantity;
          entry_price = update.average_fill_price;
          entry_time = update.updated_at;
          active_order = "";
        }
        | sell ↦ record r {
          confirmed_quantity = nought;
          entry_price = nought;
          entry_time = 0;
          last_exit = update.updated_at;
          strategy = strategy.reset r.strategy;
          active_order = "";
        }
      ]

  unfoldable pub on_order_update :
      TestnetRuntime S V W → Snapshot W → Outcome (TestnetRuntime S V W)
  on_order_update r update =
      let r = if env.saved update then r else record r { venue = env.kill r.venue } in
      if r.locked then blocked r else returned (apply_update r update)

  -- The updates that the venue hands over, one after the other.
  unfoldable pub deliver : TestnetRuntime S V W → List (Snapshot W) → Outcome (TestnetRuntime S V W)
  deliver r [] = returned r
  deliver r (update ∷ updates) = elim (on_order_update r update) [
    | returned r ↦ deliver r updates
    | thrown r ↦ thrown r
    | blocked r ↦ blocked r
  ]

  -- The end of the lock guard's scope, on a return and on an exception.
  unfoldable pub unlock : Bool → Outcome (TestnetRuntime S V W) → Outcome (TestnetRuntime S V W)
  unlock throws (returned r) =
      if throws
      then thrown (record r { locked = false })
      else returned (record r { locked = false })
  unlock throws (thrown r) = thrown (record r { locked = false })
  unlock throws (blocked r) = blocked r

  abbrev pub order_id : TestnetRuntime S V W → String → ℕ → String
  order_id r side now =
      concat "sentum-"
        (concat r.symbol (concat "-" (concat side (concat "-" (env.decimal (now / 1000))))))

  -- An order, while the mutex is held.
  unfoldable pub place :
      TestnetRuntime S V W → Side → W → String → ℕ → Outcome (TestnetRuntime S V W)
  place r side quantity text now =
      let request : Request W = record {
        symbol = r.symbol;
        side = side;
        quantity = quantity;
        client_order_id = order_id r text now;
      } in
      let answer = env.submit r.venue request in
      unlock answer.thrown (
        deliver (record r { active_order = request.client_order_id; venue = answer.venue })
          answer.updates)

  unfoldable pub on_price : TestnetRuntime S V W → W → ℕ → Outcome (TestnetRuntime S V W)
  on_price r price now =
      if not r.running || (not (env.ready r.venue) || le price nought)
      then returned r
      else if r.locked
      then blocked r
      else if not (len r.active_order == 0)
      then returned r
      else if le r.confirmed_quantity nought
      then (let (next, signal) = strategy.on_price r.strategy price now in
          let asked : TestnetRuntime S V W = record r { strategy = next } in
          if not (is_buy signal.action)
          then returned asked
          else (let decision = approve_entry r.risk signal price now r.last_exit now in
              if not decision.approved
              then returned asked
              else place (record asked { locked = true }) buy decision.quantity "buy" now))
      else if le r.entry_price nought
      then returned r
      else (let stop = le price (r.entry_price ⊗ (one ⊖ r.risk.stop_loss_percent)) in
          let target = ge price (r.entry_price ⊗ (one ⊕ r.risk.take_profit_percent)) in
          let timeout =
            not (r.entry_time == 0)
            && aged now r.entry_time (from_seconds r.risk.max_holding_seconds) in
          if not stop && (not target && not timeout)
          then returned r
          else (let reason =
                if stop
                then "stop_loss"
                else if target
                then "take_profit"
                else "maximum_holding_time" in
              place (record r { exit_reason = reason; locked = true }) sell r.confirmed_quantity
                "sell" now))

  -- The venue's `submit` throws before it hands over any update, as it does where the venue is not ready or the
  -- order is refused, or hands over at least one before it ends, as a submission through
  -- `OrderManager::submit_market` does with the pending order.
  pub record IsPublishing : Type 0 where
    pub publishes :
        (v : V) (request : Request W)
        → (((env.submit v request).updates ≡ []) × ((env.submit v request).thrown ≡ true))
          ⊎ ((first : Snapshot W) × ((rest : List (Snapshot W)) × ((env.submit v request).updates
                  ≡ first ∷ rest)))

  deliver_blocks :
      (r : TestnetRuntime S V W) (updates : List (Snapshot W)) (first : Snapshot W)
      (rest : List (Snapshot W))
      → updates ≡ first ∷ rest
      → r.locked ≡ true
      → is_blocked (deliver r updates) ≡ true
  unfolding deliver on_order_update
  deliver_blocks r updates first rest h held = rw h (ground arith)

  unlock_blocks :
      (throws : Bool) (o : Outcome (TestnetRuntime S V W))
      → is_blocked o ≡ true
      → is_blocked (unlock throws o) ≡ true
  unfolding unlock
  unlock_blocks throws (returned r) h = absurd (ground (arith, h))
  unlock_blocks throws (thrown r) h = absurd (ground (arith, h))
  unlock_blocks throws (blocked r) h = refl

  -- The call throws.
  abbrev pub is_thrown : Outcome (TestnetRuntime S V W) → Bool
  is_thrown (thrown r) = true
  is_thrown _ = false

  refused_throws :
      (r : TestnetRuntime S V W) (updates : List (Snapshot W)) (throws : Bool)
      → updates ≡ []
      → throws ≡ true
      → is_thrown (unlock throws (deliver r updates)) ≡ true
  unfolding unlock deliver
  refused_throws r updates throws none_sent failed = rw (none_sent, failed) refl

  place_blocks :
      (r : TestnetRuntime S V W) (side : Side) (quantity : W) (text : String) (now : ℕ)
      → IsPublishing
      → r.locked ≡ true
      → let o = place r side quantity text now in (is_blocked o ≡ true) ⊎ (is_thrown o ≡ true)
  unfolding place
  place_blocks r side quantity text now publishing held =
      let request : Request W = record {
        symbol = r.symbol;
        side = side;
        quantity = quantity;
        client_order_id = order_id r text now;
      } in
      let answer = env.submit r.venue request in
      let sent : TestnetRuntime S V W = record r {
        active_order = request.client_order_id;
        venue = answer.venue;
      } in
      elim (publishing.publishes r.venue request) [
        | inl (none_sent, failed) ↦
            inr (refused_throws sent answer.updates answer.thrown none_sent failed)
        | inr (first, (rest, updates)) ↦ inl (
            unlock_blocks answer.thrown (deliver sent answer.updates)
              (deliver_blocks sent answer.updates first rest updates held))
      ]

  -- With a venue whose `submit` throws at once or hands over an update before it ends, no call of `on_price` ever
  -- places an order and returns: it leaves the active order and the venue as they are, or throws, or waits for
  -- its own mutex for ever.
  pub on_price_submit_blocks :
      (r : TestnetRuntime S V W) (price : W) (now : ℕ)
      → IsPublishing
      → ((is_blocked (on_price r price now) ≡ true) ⊎ (is_thrown (on_price r price now) ≡ true))
        ⊎ ((settled : TestnetRuntime S V W) × (on_price r price now ≡ returned settled)
            × (settled.active_order ≡ r.active_order)
            × (settled.venue ≡ r.venue))
  unfolding on_price
  on_price_submit_blocks r price now publishing =
      let Fine : Outcome (TestnetRuntime S V W) → Type 0 = λ o.
        ((is_blocked o ≡ true) ⊎ (is_thrown o ≡ true))
        ⊎ ((settled : TestnetRuntime S V W) × (o ≡ returned settled)
            × (settled.active_order ≡ r.active_order)
            × (settled.venue ≡ r.venue)) in
      let still : Fine (returned r) = inr (r, refl, refl, refl) in
      let (next, signal) = strategy.on_price r.strategy price now in
      let asked : TestnetRuntime S V W = record r { strategy = next } in
      let same : Fine (returned asked) = inr (asked, refl, refl, refl) in
      let decision = approve_entry r.risk signal price now r.last_exit now in
      let stop = le price (r.entry_price ⊗ (one ⊖ r.risk.stop_loss_percent)) in
      let target = ge price (r.entry_price ⊗ (one ⊕ r.risk.take_profit_percent)) in
      let timeout =
        not (r.entry_time == 0)
        && aged now r.entry_time (from_seconds r.risk.max_holding_seconds) in
      let reason =
        if stop then "stop_loss" else if target then "take_profit" else "maximum_holding_time" in
      if-elim Fine (not r.running || (not (env.ready r.venue) || le price nought)) (λ _. still)
        (λ _.
          if-elim Fine r.locked (λ _. inl (inl refl))
            (λ _.
              if-elim Fine (not (len r.active_order == 0)) (λ _. still)
                (λ _.
                  if-elim Fine (le r.confirmed_quantity nought)
                    (λ _.
                      if-elim Fine (not (is_buy signal.action)) (λ _. same)
                        (λ _.
                          if-elim Fine (not decision.approved) (λ _. same)
                            (λ _. inl (
                              place_blocks (record asked { locked = true }) buy decision.quantity
                                "buy" now publishing refl))))
                    (λ _.
                      if-elim Fine (le r.entry_price nought) (λ _. still)
                        (λ _.
                          if-elim Fine (not stop && (not target && not timeout)) (λ _. still)
                            (λ _. inl (
                              place_blocks (record r { exit_reason = reason; locked = true }) sell
                                r.confirmed_quantity "sell" now publishing refl)))))))
