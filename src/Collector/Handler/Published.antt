-- ===== src/Collector/Handler/Published.antt =====
-- What the collector has published after any messages.
use sentum.Prelude.{
  ℕ, ◌+◌, ◌%◌, ◌^◌, ◌≡◌, ◌++◌, String, true, some, List, [], ◌∷◌, length, get_elem?,
}
use sentum.Clock.{from_ms}
use sentum.Float.{Double}
use sentum.Market.Types.{MarketEvent}
use sentum.Collector.Parser.{Bytes, ParsedKline, parse_kline}
use sentum.Collector.Symbols.{Directory}
use sentum.Collector.Handler.{Collector, time_of}

module _ {W : Type 0} ⦃d : Double W⦄ (text : Bytes → String) where
  -- The candle of one of the messages that were sent, which is closed, under the number and the name of the
  -- symbol at some place of the table.
  pub record IsKnown (directory : Directory) (sent : List Bytes) (event : MarketEvent W)
      : Type 0 where
    pub index : ℕ
    pub name : Bytes
    pub at : get_elem? directory.canonical_symbols index ≡ some name
    pub numbered : event.symbol_id ≡ (index + 1) % 2 ^ 32
    pub named : event.symbol ≡ text name
    pub earlier : List Bytes
    pub payload : Bytes
    pub later : List Bytes
    pub among : sent ≡ earlier ++ (payload ∷ later)
    pub parsed : ParsedKline W
    pub reads : parse_kline payload ≡ some parsed
    pub final : parsed.closed ≡ true
    pub marked : event.closed ≡ true
    pub at_time : event.timestamp ≡ from_ms (time_of parsed.timestamp)
    pub priced :
        (event.price ≡ parsed.close)
        × (event.open_price ≡ parsed.open_price)
        × (event.high ≡ parsed.high)
        × (event.low ≡ parsed.low)
        × (event.close ≡ parsed.close)
        × (event.volume ≡ parsed.volume)

  abbrev pub AllKnown : Directory → List Bytes → List (MarketEvent W) → Type 0
  AllKnown directory sent [] = Unit
  AllKnown directory sent (event ∷ events) =
      IsKnown directory sent event × AllKnown directory sent events

  pub record IsSound (directory : Directory) (sent : List Bytes) (c : Collector W) : Type 0 where
    pub fixed : c.directory ≡ directory
    pub known : AllKnown directory sent c.published
    pub counted : c.channel.enqueued + c.channel.dropped ≡ length c.published
