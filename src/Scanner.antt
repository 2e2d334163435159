-- ===== src/Scanner.antt =====
-- src/sentum/scanner/SymbolScanner.cpp: the returns of each symbol over 30 and 60 candles, kept as candles come
-- in. A handler is there or not, and the call that it gets is a result. `std::sort` and `std::partial_sort`
-- leave the order of equals open; here they stay in the order of the map.
pub mod Top
pub mod Ranking
use sentum.Prelude.{
  ℕ, String, Bool, true, false, not, ◌&&◌, ◌||◌, Option, none, some, List, [], ◌∷◌, if◌then◌else◌,
  ◌==◌, leb, ltb, length, take,
}
use sentum.Prelude.Dict.{Dict, lookup, insert, str_eq}
use sentum.Float.{Double, ◌⊗◌, ◌⊘◌, le, gt}
use sentum.Market.Types.{MarketEvent, invalid_symbol_id}
use sentum.Market.Store.{MarketDataStore, cumulative_return_symbol, cumulative_return_id}

pub record SymbolPerformance (W : Type 0) : Type 0 where
  pub symbol : String
  pub cum_return : W

pub record SymbolScanner (W : Type 0) : Type 0 where
  pub min_return_threshold : W
  pub returns_30 : Dict W
  pub returns_60 : Dict W
  pub has_handler : Bool
  pub last_top_symbol : String

module _ {W : Type 0} ⦃d : Double W⦄ where
  abbrev pub new_scanner : W → SymbolScanner W
  new_scanner threshold = record {
    min_return_threshold = threshold;
    returns_30 = [];
    returns_60 = [];
    has_handler = false;
    last_top_symbol = "";
  }

  abbrev pub round_factor : W
  round_factor = d.lit 100_000_000 0

  unfoldable pub cached : String → Option W → Dict W → Dict W
  cached symbol none cache = cache
  cached symbol (some value) cache =
      insert symbol (d.round (value ⊗ round_factor) ⊘ round_factor) cache

  unfoldable pub update_cache : MarketDataStore W → MarketEvent W → ℕ → Dict W → Dict W
  update_cache store event lookback cache =
      let value =
        if not (event.symbol_id == invalid_symbol_id)
        then cumulative_return_id store event.symbol_id lookback
        else cumulative_return_symbol store event.symbol lookback in
      cached event.symbol value cache

  -- `top`, which is unset while its symbol is empty.
  abbrev pub unset : Option (SymbolPerformance W) → Bool
  unset none = true
  unset (some top) = str_eq top.symbol ""

  abbrev pub exceeds : W → Option (SymbolPerformance W) → Bool
  exceeds value none = false
  exceeds value (some top) = gt value top.cum_return

  -- A round of the loop over `returns_30_`.
  unfoldable pub better :
      W → Option (SymbolPerformance W) → String → W → Option (SymbolPerformance W)
  better threshold top symbol value =
      if le value threshold
      then top
      else if unset top || exceeds value top
      then some (record { symbol = symbol; cum_return = value })
      else top

  unfoldable pub top_from : W → Option (SymbolPerformance W) → Dict W → Option (SymbolPerformance W)
  top_from threshold top [] = top
  top_from threshold top ((symbol, value) ∷ cache) =
      top_from threshold (better threshold top symbol value) cache

  -- The end of `on_market_event`, with the call that the handler gets.
  unfoldable pub announce :
      SymbolScanner W
      → Option (SymbolPerformance W)
      → SymbolScanner W × Option (SymbolPerformance W)
  announce s none = (s, none)
  announce s (some top) =
      if not (str_eq top.symbol "") && not (str_eq top.symbol s.last_top_symbol)
      then (record s { last_top_symbol = top.symbol }, if s.has_handler then some top else none)
      else (s, none)

  unfoldable pub on_market_event :
      SymbolScanner W
      → MarketDataStore W
      → MarketEvent W
      → SymbolScanner W × Option (SymbolPerformance W)
  on_market_event s store event =
      if str_eq event.symbol "" || not event.closed
      then (s, none)
      else (let updated : SymbolScanner W = record s {
        returns_30 = update_cache store event 30 s.returns_30;
        returns_60 = update_cache store event 60 s.returns_60;
      } in
          announce updated (top_from s.min_return_threshold none updated.returns_30))

  unfoldable pub above : W → Dict W → List (SymbolPerformance W)
  above threshold [] = []
  above threshold ((symbol, cum_return) ∷ cache) =
      let rest = above threshold cache in
      if gt cum_return threshold
      then record { symbol = symbol; cum_return = cum_return } ∷ rest
      else rest

  -- The sort by falling return.
  unfoldable pub rank_in :
      SymbolPerformance W → List (SymbolPerformance W) → List (SymbolPerformance W)
  rank_in p [] = p ∷ []
  rank_in p (q ∷ ranked) =
      let later = rank_in p ranked in
      if gt q.cum_return p.cum_return then q ∷ later else p ∷ q ∷ ranked

  unfoldable pub rank : List (SymbolPerformance W) → List (SymbolPerformance W)
  rank [] = []
  rank (p ∷ ps) = rank_in p (rank ps)

  -- `max_symbols` is 0 where the caller gives a number that is not positive.
  unfoldable pub fetch_top_performers : SymbolScanner W → ℕ → ℕ → List (SymbolPerformance W)
  fetch_top_performers s lookback max_symbols =
      let result =
        above s.min_return_threshold (if leb lookback 30 then s.returns_30 else s.returns_60) in
      let wanted = if ltb 0 max_symbols then max_symbols else length result in
      if ltb wanted (length result) then take wanted (rank result) else rank result
