-- ===== src/Tests/Market.antt =====
-- Runs of the queue and of the candle store.

use sentum.Market.Spsc.Threads.{new_threads}
use sentum.Market.Spsc.Threads.Order.{Turn, producing, consuming, interleave, interleave_in_order}
use sentum.Prelude.{ℕ, length, map, ◌++◌, ◌<◌, ◌-◌, ◌≡◌, refl, some, List, [], ◌∷◌, drop, arith}
use sentum.Float.Fixed.{Fixed, fixed_double}
use sentum.Market.Types.{Kline}
use sentum.Market.Spsc.{Ring, new_ring}
use sentum.Market.Spsc.Fifo.{Op, push, pop, new_ring-Holds, run, spec, run_refines}
use sentum.Market.Store.{MarketDataStore, new_store, register_symbol, upsert_symbol, upsert_id}
use sentum.Market.Store.Buffer.{RingBuffer, new_buffer, upsert_buffer, latest_buffer}
use sentum.Market.Store.Latest.{IsValid, contents, put, trim, upsert_buffer_refines}
use sentum.Market.Store.Readers.{latest_buffer_newest}
use sentum.Market.Store.Names.{
  Call, register, write_symbol, write_id, run_calls, upsert_id-eq-upsert_symbol,
}
use sentum.Tests.{dollars}

abbrev candle : ℕ → ℕ → Kline Fixed
candle at price = record {
  timestamp = at;
  open_price = dollars price;
  high = dollars price;
  low = dollars price;
  close = dollars price;
  volume = dollars 1;
}

abbrev ring : Ring ℕ
ring = new_ring 3

abbrev calls : List (Op ℕ)
calls = push 1 ∷ push 2 ∷ push 3 ∷ pop ∷ push 4 ∷ pop ∷ []

run_refines_example : run 3 ring calls ≡ spec 3 [] calls
run_refines_example = run_refines 3 calls ring [] (new_ring-Holds 3 (omega arith))

-- A ring of two cells, full, and about to drop its oldest candle.
abbrev buffer : RingBuffer Fixed
buffer = record (new_buffer 2) { entries = candle 1 100 ∷ candle 2 101 ∷ []; head = 0; size = 2 }

buffer-IsValid : IsValid buffer
buffer-IsValid = record {
  positive = omega arith;
  sized = refl;
  head_in = omega arith;
  size_in = omega arith;
}

upsert_buffer_refines_example :
    contents (upsert_buffer buffer (candle 3 102)) ≡ trim 2 (put (contents buffer) (candle 3 102))
upsert_buffer_refines_example = upsert_buffer_refines buffer (candle 3 102) buffer-IsValid

latest_buffer_newest_example :
    latest_buffer (some buffer) 1 ≡ drop (buffer.size - 1) (contents buffer)
latest_buffer_newest_example = latest_buffer_newest buffer 1 buffer-IsValid

abbrev store : MarketDataStore Fixed
store = new_store 600

abbrev later : List (Call Fixed)
later =
    register 2 "ETHUSDC"
    ∷ write_symbol "ETHUSDC" (candle 1 50)
    ∷ write_id 1 (candle 1 99)
    ∷ register 1 "BTCUSDC"
    ∷ []

upsert_id-eq-upsert_symbol_example :
    let r = run_calls (register_symbol store 1 "BTCUSDC") later in
    upsert_id r 1 (candle 2 100) ≡ upsert_symbol r "BTCUSDC" (candle 2 100)
upsert_id-eq-upsert_symbol_example =
    upsert_id-eq-upsert_symbol store 1 "BTCUSDC" later (candle 2 100)
      (λ e. absurd (omega (arith, e))) refl

-- Two pushes and a pop, with the pop's accesses between those of the second push.
abbrev turns : List (Turn ℕ)
turns =
    producing 7
    ∷ producing 7
    ∷ producing 7
    ∷ producing 8
    ∷ consuming
    ∷ producing 8
    ∷ consuming
    ∷ consuming
    ∷ producing 8
    ∷ consuming
    ∷ []

interleave_in_order_example :
    (pending : List ℕ) × (length pending < 3)
    × (map some (interleave 3 (new_threads 3) turns).accepted
        ≡ (interleave 3 (new_threads 3) turns).received ++ map some pending)
interleave_in_order_example = interleave_in_order 3 turns (omega arith)
