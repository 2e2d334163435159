-- ===== src/Collector/Handler.antt =====
-- src/sentum/collector/Collector.cpp: what the collector does with a message of the stream. Connecting, logging
-- and the figures on latency are left out. `text` is the text of a list of bytes. What is published is a list,
-- newest first; a subscriber runs during the call and is not part of it. A time before the epoch counts as 0.
pub mod Published
use sentum.Prelude.{
  ℕ, suc, ◌+◌, ◌≡◌, refl, String, Bool, true, false, not, Option, none, some, List, [], ◌∷◌,
  if◌then◌else◌, length, arith, if-elim,
}
use sentum.Clock.{from_ms}
use sentum.Float.{Double}
use sentum.Market.Types.{MarketEvent, new_event, candle, Kline}
use sentum.Market.Store.{MarketDataStore, register_symbol, upsert_id}
use sentum.Collector.Parser.{Bytes, Integer, ParsedKline, parse_kline}
use sentum.Collector.Symbols.{Directory, initialize_symbols, resolve_symbol}
use sentum.Collector.Queue.{Channel, try_enqueue}

pub record KlineBatchItem (W : Type 0) : Type 0 where
  pub symbol : String
  pub kline : Kline W

pub record Collector (W : Type 0) : Type 0 where
  pub directory : Directory
  pub store : MarketDataStore W
  pub channel : Channel (KlineBatchItem W)
  pub published : List (MarketEvent W)

abbrev pub time_of : Integer → ℕ
time_of time = if time.negative then 0 else time.size

module _ {W : Type 0} ⦃d : Double W⦄ (text : Bytes → String) where
  -- The registrations of `initialize_symbols`, from round `i` on.
  unfoldable pub register_symbols : ℕ → List Bytes → MarketDataStore W → MarketDataStore W
  register_symbols i [] store = store
  register_symbols i (name ∷ names) store =
      register_symbols (suc i) names (register_symbol store (suc i) (text name))

  unfoldable pub new_collector :
      List Bytes → MarketDataStore W → Channel (KlineBatchItem W) → Collector W
  new_collector markets store channel =
      let directory = initialize_symbols markets in
      record {
        directory = directory;
        store = register_symbols 0 directory.canonical_symbols store;
        channel = channel;
        published = [];
      }

  abbrev pub entry_of : ParsedKline W → Kline W
  entry_of parsed = record {
    timestamp = time_of parsed.timestamp;
    open_price = parsed.open_price;
    high = parsed.high;
    low = parsed.low;
    close = parsed.close;
    volume = parsed.volume;
  }

  abbrev pub candle_event : ℕ → Bytes → Kline W → MarketEvent W
  candle_event id canonical entry = record new_event {
    type = candle;
    symbol_id = id;
    symbol = text canonical;
    timestamp = from_ms entry.timestamp;
    price = entry.close;
    open_price = entry.open_price;
    high = entry.high;
    low = entry.low;
    close = entry.close;
    volume = entry.volume;
    closed = true;
  }

  module _ (cap : ℕ) where
    -- What is done with a candle of a known symbol.
    unfoldable pub deliver : Collector W → ParsedKline W → ℕ × Bytes → Collector W
    deliver c parsed (id, canonical) =
        let entry = entry_of parsed in
        let stored : Collector W = record c { store = upsert_id c.store id entry } in
        if parsed.closed
        then record stored {
          published = candle_event id canonical entry ∷ c.published;
          channel =
              (try_enqueue cap c.channel (record { symbol = text canonical; kline = entry })).0;
        }
        else stored

    unfoldable pub resolved : Collector W → ParsedKline W → Option (ℕ × Bytes) → Collector W
    resolved c parsed none = c
    resolved c parsed (some symbol) = deliver c parsed symbol

    unfoldable pub parsed_message : Collector W → Option (ParsedKline W) → Collector W
    parsed_message c none = c
    parsed_message c (some parsed) = resolved c parsed (resolve_symbol c.directory parsed.symbol)

    unfoldable pub on_message : Collector W → Bytes → Collector W
    on_message c payload =
        if not c.channel.running then c else parsed_message c (parse_kline payload)

    unfoldable pub on_messages : Collector W → List Bytes → Collector W
    on_messages c [] = c
    on_messages c (payload ∷ payloads) = on_messages (on_message c payload) payloads
