-- ===== src/Tests/Scanner.antt =====
-- Runs of the symbol scanner and of the event bus.
use sentum.Prelude.{String, ◌≡◌, ◌≢◌, refl, true, some, [], ◌∷◌}
use sentum.Prelude.Dict.{lookup, insert}
use sentum.Prelude.Int.{◌+ℤ◌, ◌-ℤ◌}
use sentum.Float.{nought}
use sentum.Float.Fixed.{Fixed, fixed_double, Fixed-IsFloat, whole}
use sentum.Market.Types.{MarketEvent, candle, new_event}
use sentum.Market.Store.{MarketDataStore, new_store, cumulative_return_symbol, find_symbol}
use sentum.Market.Store.Buffer.{cumulative_return_buffer}
use sentum.Market.Bus.{MarketEventBus}
use sentum.Scanner.{
  SymbolPerformance, SymbolScanner, new_scanner, update_cache, cached, better, top_from, announce,
  on_market_event, fetch_top_performers,
}
use sentum.Scanner.Ranking.{Leads, looked_at, fetch_top_performers-Leads}
use sentum.Scanner.Top.{HoldsTop, Covers, on_market_event_announces}

abbrev scanner : SymbolScanner Fixed
scanner = record (new_scanner nought) {
  returns_30 = ("btc", whole 2) ∷ ("eth", whole 3) ∷ ("xrp", whole 1) ∷ [];
  has_handler = true;
}

fetch_top_performers-Leads_example :
    Leads (looked_at scanner 30) 2 (fetch_top_performers scanner 30 2)
fetch_top_performers-Leads_example = fetch_top_performers-Leads Fixed-IsFloat scanner 30 2

abbrev closed_candle : MarketEvent Fixed
closed_candle = record new_event { type = candle; symbol = "ada" }

abbrev store : MarketDataStore Fixed
store = new_store 5

abbrev eth : SymbolPerformance Fixed
eth = record { symbol = "eth"; cum_return = whole 3 }

on_market_event_announces_example :
    HoldsTop nought eth (on_market_event scanner store closed_candle).0.returns_30
    × Covers nought (some eth) (on_market_event scanner store closed_candle).0.returns_30
    × (scanner.has_handler ≡ true)
    × (eth.symbol ≢ scanner.last_top_symbol)
    × ((on_market_event scanner store closed_candle).0.last_top_symbol ≡ "eth")
unfolding on_market_event announce top_from update_cache cached cumulative_return_symbol
    cumulative_return_buffer find_symbol lookup better ◌-ℤ◌ ◌+ℤ◌ insert
on_market_event_announces_example =
    on_market_event_announces Fixed-IsFloat scanner store closed_candle eth
      (refl, refl, (refl, refl, (refl, refl, tt))) refl

abbrev bus : MarketEventBus String
bus = record { handlers = (1, "scanner") ∷ []; next_id = 2 }
