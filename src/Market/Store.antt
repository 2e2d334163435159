-- ===== src/Market/Store.antt =====
-- src/sentum/market/MarketDataStore.hpp: for each symbol a ring of its latest candles, reached by name or
-- by number. `shared_ptr` is a position in the list `cells`, so a name and a number can share a ring.
-- Each call holds the locks that it needs, and stands here as one step.
pub mod Buffer
pub mod Latest
pub mod Readers
pub mod Alias
pub mod Names
use sentum.Prelude.{
  ℕ, ◌+◌, ◌-◌, String, Bool, true, false, Option, none, some, List, [], ◌∷◌, ◌++◌, if◌then◌else◌,
  ◌==◌, leb, ltb, length, get_elem?, set, replicate,
}
use sentum.Prelude.Dict.{Dict, lookup, insert}
use sentum.Float.{Double}
use sentum.Market.Types.{SymbolId, invalid_symbol_id, Kline}
use sentum.Market.Store.Buffer.{
  RingBuffer, new_buffer, upsert_buffer, latest_buffer, cumulative_return_buffer, buffer_size,
}

pub record MarketDataStore (W : Type 0) : Type 0 where
  pub capacity_per_symbol : ℕ
  pub cells : List (RingBuffer W)
  pub buffers : Dict ℕ
  pub id_buffers : List (Option ℕ)

-- `vector::resize`, to a size that is not smaller.
abbrev pub resize : List (Option ℕ) → ℕ → List (Option ℕ)
resize xs n = xs ++ replicate (n - length xs) none

module _ {W : Type 0} ⦃d : Double W⦄ where
  abbrev pub new_store : ℕ → MarketDataStore W
  new_store capacity = record {
    capacity_per_symbol = capacity;
    cells = [];
    buffers = [];
    id_buffers = [];
  }

  unfoldable pub get_or_create : MarketDataStore W → String → MarketDataStore W × ℕ
  get_or_create s symbol = elim (lookup symbol s.buffers) [
    | some p ↦ (s, p)
    | none ↦ (
      record s {
        cells = s.cells ++ (new_buffer s.capacity_per_symbol ∷ []);
        buffers = insert symbol (length s.cells) s.buffers;
      },
      length s.cells,
    )
  ]

  -- `find(symbol)` and `find(id)`.
  unfoldable pub find_symbol : MarketDataStore W → String → Option ℕ
  find_symbol s symbol = lookup symbol s.buffers

  unfoldable pub find_id : MarketDataStore W → SymbolId → Option ℕ
  find_id s id = elim (get_elem? s.id_buffers id) [ none ↦ none | some p ↦ p ]

  unfoldable pub register_symbol : MarketDataStore W → SymbolId → String → MarketDataStore W
  register_symbol s id symbol =
      if id == invalid_symbol_id
      then s
      else (let (t, buffer) = get_or_create s symbol in
          let grown =
            if leb (length t.id_buffers) id then resize t.id_buffers (id + 1) else t.id_buffers in
          record t { id_buffers = set grown id (some buffer) })

  -- The ring behind a pointer; `none` is the null pointer.
  abbrev pub deref : MarketDataStore W → Option ℕ → Option (RingBuffer W)
  deref s none = none
  deref s (some p) = get_elem? s.cells p

  unfoldable pub upsert_at : MarketDataStore W → Option ℕ → Kline W → MarketDataStore W
  upsert_at s none k = s
  upsert_at s (some p) k = elim (get_elem? s.cells p) [
    | none ↦ s
    | some b ↦ record s { cells = set s.cells p (upsert_buffer b k) }
  ]

  unfoldable pub upsert_symbol : MarketDataStore W → String → Kline W → MarketDataStore W
  upsert_symbol s symbol k = let (t, p) = get_or_create s symbol in upsert_at t (some p) k

  unfoldable pub upsert_id : MarketDataStore W → SymbolId → Kline W → MarketDataStore W
  upsert_id s id k = upsert_at s (find_id s id) k

  unfoldable pub symbols : MarketDataStore W → List String
  symbols s = keys s.buffers
    where
      keys : Dict ℕ → List String
      keys [] = []
      keys ((k, _) ∷ m) = k ∷ keys m

  unfoldable pub latest_symbol : MarketDataStore W → String → ℕ → List (Kline W)
  latest_symbol s symbol limit = latest_buffer (deref s (find_symbol s symbol)) limit

  unfoldable pub latest_id : MarketDataStore W → SymbolId → ℕ → List (Kline W)
  latest_id s id limit = latest_buffer (deref s (find_id s id)) limit

  unfoldable pub cumulative_return_symbol : MarketDataStore W → String → ℕ → Option W
  cumulative_return_symbol s symbol n = cumulative_return_buffer (deref s (find_symbol s symbol)) n

  unfoldable pub cumulative_return_id : MarketDataStore W → SymbolId → ℕ → Option W
  cumulative_return_id s id n = cumulative_return_buffer (deref s (find_id s id)) n

  unfoldable pub size_symbol : MarketDataStore W → String → ℕ
  size_symbol s symbol = buffer_size (deref s (find_symbol s symbol))

  unfoldable pub size_id : MarketDataStore W → SymbolId → ℕ
  size_id s id = buffer_size (deref s (find_id s id))
