-- ===== src/Tests/Collector.antt =====
-- Runs of the parser of candle messages.
use sentum.Float.Fixed.{Fixed, fixed_double}
use sentum.Market.Spsc.{increment, try_push, try_pop, empty}
use sentum.Market.Store.{new_store}
use sentum.Collector.Symbols.{to_lower, initialize_symbols, resolve_symbol}
use sentum.Collector.Symbols.Lookup.{resolve_symbol_finds}
use sentum.Collector.Queue.{finished, popped, halt, start_channel, try_enqueue, write_in, write}
use sentum.Collector.Queue.Delivery.{Carries, delivered}
use sentum.Collector.Queue.Runs.{Event, push, write_step, stop, play, play_delivers}
use sentum.Collector.Queue.Drain.{writes, stop_drains}
use sentum.Collector.Handler.{Collector, new_collector}
use sentum.Prelude.{ℕ, List, replicate, arith, ◌≡◌, refl, true, false, some, [], ◌∷◌, ◌++◌}
use sentum.Collector.Parser.{
  Bytes, decimal_of, all_digits, read_digits, read_digits_exact, find_after, after_prefix,
  integer_field,
}

-- `{"t":42,`
abbrev message : Bytes
message = 123 ∷ 34 ∷ 116 ∷ 34 ∷ 58 ∷ 52 ∷ 50 ∷ 44 ∷ []

runs : integer_field message 116 ≡ some (record { negative = false; size = 42 })
unfolding integer_field find_after after_prefix read_digits
runs = refl

read_digits_exact_example :
    read_digits 0 false ((52 ∷ 50 ∷ []) ++ (44 ∷ []))
    ≡ record { value = decimal_of 0 (52 ∷ 50 ∷ []); any = true; rest = 44 ∷ [] }
unfolding all_digits decimal_of
read_digits_exact_example = read_digits_exact 0 false 52 (50 ∷ []) 44 [] refl refl (omega arith)

-- `BTC` and, in the stream's small letters, `btc`.
abbrev btc : Bytes
btc = 66 ∷ 84 ∷ 67 ∷ []

abbrev small_btc : Bytes
small_btc = 98 ∷ 116 ∷ 99 ∷ []

resolve_symbol_finds_example :
    resolve_symbol (initialize_symbols ([] ++ (btc ∷ []))) small_btc ≡ some (1, small_btc)
unfolding to_lower
resolve_symbol_finds_example = resolve_symbol_finds [] btc [] small_btc refl refl

found : resolve_symbol (initialize_symbols (btc ∷ [])) small_btc ≡ some (1, small_btc)
unfolding to_lower
found = resolve_symbol_finds_example

abbrev candles : List (Event ℕ)
candles = push 7 ∷ write_step true ∷ push 8 ∷ stop ∷ []

play_delivers_example :
    (q : List ℕ) × Carries 4
      (play 4 (start_channel 4) candles).1
      q
      (play 4 (start_channel 4) candles).0
play_delivers_example = play_delivers 4 candles (omega arith)

stop_drains_example :
    let end = writes 4 (halt (play 4 (start_channel 4) candles).0) (replicate 48 true) in
    (end.phase ≡ finished) × (delivered end.handed ≡ (play 4 (start_channel 4) candles).1)
unfolding try_enqueue write write_in try_push try_pop popped halt empty increment
stop_drains_example =
    stop_drains 4 candles (replicate 48 true) (omega arith) (ground arith) (omega arith)

-- `{"data":{"k":{"s":"BTC","t":42,"o":"1","h":"1","l":"1","c":"1","v":"1","x":true}}}`
abbrev candle_message : Bytes
candle_message =
    123 ∷ 34 ∷ 100 ∷ 97 ∷ 116 ∷ 97 ∷ 34 ∷ 58 ∷ 123 ∷ 34 ∷ 107 ∷ 34 ∷ 58 ∷ 123 ∷ 34 ∷ 115 ∷ 34 ∷ 58
    ∷ 34 ∷ 66 ∷ 84 ∷ 67 ∷ 34 ∷ 44 ∷ 34 ∷ 116 ∷ 34 ∷ 58 ∷ 52 ∷ 50 ∷ 44 ∷ 34 ∷ 111 ∷ 34 ∷ 58 ∷ 34 ∷ 49
    ∷ 34 ∷ 44 ∷ 34 ∷ 104 ∷ 34 ∷ 58 ∷ 34 ∷ 49 ∷ 34 ∷ 44 ∷ 34 ∷ 108 ∷ 34 ∷ 58 ∷ 34 ∷ 49 ∷ 34 ∷ 44 ∷ 34
    ∷ 99 ∷ 34 ∷ 58 ∷ 34 ∷ 49 ∷ 34 ∷ 44 ∷ 34 ∷ 118 ∷ 34 ∷ 58 ∷ 34 ∷ 49 ∷ 34 ∷ 44 ∷ 34 ∷ 120 ∷ 34 ∷ 58
    ∷ 116 ∷ 114 ∷ 117 ∷ 101 ∷ 125 ∷ 125 ∷ 125 ∷ []

abbrev started : Collector Fixed
started = new_collector (λ name. "btc") (btc ∷ []) (new_store 5) (start_channel 4)
