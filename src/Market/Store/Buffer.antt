-- ===== src/Market/Store/Buffer.antt =====
-- src/sentum/market/MarketDataStore.hpp: `RingBuffer` and the functions on one ring. A null pointer is
-- `none`. The positions stay below twice the capacity, so their `size_t` sums do not wrap.
use sentum.Prelude.{
  ℕ, zero, suc, ◌+◌, ◌-◌, ◌%◌, min, Option, none, some, List, [], ◌∷◌, ◌&&◌, if◌then◌else◌, ◌==◌,
  ltb, get_or, set, replicate,
}
use sentum.Float.{Double, ◌⊖◌, ◌⊘◌, le, nought}
use sentum.Market.Types.{Kline}

pub record RingBuffer (W : Type 0) : Type 0 where
  -- `data`
  pub entries : List (Kline W)
  pub capacity : ℕ
  pub head : ℕ
  pub size : ℕ

module _ {W : Type 0} ⦃d : Double W⦄ where
  -- `Kline{}`.
  abbrev pub blank : Kline W
  blank = record {
    timestamp = 0;
    open_price = nought;
    high = nought;
    low = nought;
    close = nought;
    volume = nought;
  }

  abbrev pub new_buffer : ℕ → RingBuffer W
  new_buffer c = record { entries = replicate c blank; capacity = c; head = 0; size = 0 }

  abbrev pub at : RingBuffer W → ℕ → Kline W
  at b i = get_or b.entries i blank

  abbrev pub last_index : RingBuffer W → ℕ
  last_index b = (b.head + b.capacity - 1) % b.capacity

  unfoldable pub upsert_buffer : RingBuffer W → Kline W → RingBuffer W
  upsert_buffer b kline =
      if ltb 0 b.size && ((at b (last_index b)).timestamp == kline.timestamp)
      then record b { entries = set b.entries (last_index b) kline }
      else record b {
        entries = set b.entries b.head kline;
        head = (b.head + 1) % b.capacity;
        size = if ltb b.size b.capacity then b.size + 1 else b.size;
      }

  -- The loop of `latest_buffer` from round `i`, with `rounds` to go.
  unfoldable pub copy_from : RingBuffer W → ℕ → ℕ → ℕ → List (Kline W)
  copy_from b start i zero = []
  copy_from b start i (suc rounds) =
      at b ((start + i) % b.capacity) ∷ copy_from b start (i + 1) rounds

  unfoldable pub latest_buffer : Option (RingBuffer W) → ℕ → List (Kline W)
  unfolding copy_from
  latest_buffer none limit = []
  latest_buffer (some b) limit =
      if limit == 0
      then []
      else (let count = min limit b.size in
          copy_from b ((b.head + b.capacity - count) % b.capacity) 0 count)

  -- `none` is `false`, with `result` left alone.
  unfoldable pub cumulative_return_buffer : Option (RingBuffer W) → ℕ → Option W
  cumulative_return_buffer none lookback = none
  cumulative_return_buffer (some b) lookback =
      if ltb lookback 2
      then none
      else (let count = min lookback b.size in
          if ltb count 2
          then none
          else (let first = (at b ((b.head + b.capacity - count) % b.capacity)).close in
              if le first nought
              then none
              else some (((at b (last_index b)).close ⊖ first) ⊘ first)))

  unfoldable pub buffer_size : Option (RingBuffer W) → ℕ
  buffer_size none = 0
  buffer_size (some b) = b.size
