-- ===== src/Backtest/Replay.antt =====
-- `HistoricalEventReader` of src/sentum/backtest/Backtest.hpp: from the lines of a replay file to its events.
-- Opening the file is not modelled. `std::stoll` and `std::stod` are parameters; `none` is an exception that
-- they throw, or a number below 0, since times are modelled from 0 on.
use sentum.Prelude.{
  ℕ, ◌≡◌, refl, String, Bool, true, false, ◌&&◌, Option, none, some, List, [], ◌∷◌, if◌then◌else◌,
  arith,
}
use sentum.Prelude.Split.{split_from, joined, is_blank, well_separated, split_from-joined}
use sentum.Prelude.Sort.{stable_sort, at_key, IsSorted, stable_sort-IsSorted, at_key-stable_sort}
use sentum.Clock.{from_ms}
use sentum.Float.{Double, nought}
use sentum.Market.Types.{MarketEvent, new_event, trade}
use sentum.Collector.Parser.{Bytes, find_after}
use sentum.Order.Manager.{Result, ok, throw, runtime_error, failure}

pub record Numbers (W : Type 0) : Type 0 where
  pub stoll : Bytes → Option ℕ
  pub stod : Bytes → Option W

abbrev pub comma : ℕ
comma = 44

-- `std::getline(ss, field, ',')` until it fails.
unfoldable pub columns_of : Bytes → List Bytes
columns_of line = split_from comma [] line

-- `line.find("timestamp") != npos`.
abbrev pub names_timestamp : Bytes → Bool
names_timestamp line =
    elim (find_after (116 ∷ 105 ∷ 109 ∷ 101 ∷ 115 ∷ 116 ∷ 97 ∷ 109 ∷ 112 ∷ []) line) [
      | none ↦ false
      | some rest ↦ true
    ]

module _ {W : Type 0} ⦃d : Double W⦄ (numbers : Numbers W) (symbol : String) where
  open numbers use {stoll, stod}

  unfoldable pub volume_of : List Bytes → Option W
  volume_of [] = some nought
  volume_of (column ∷ columns) = stod column

  -- The event of the three numbers of a line, each of which may have thrown.
  unfoldable pub event_from : Option ℕ → Option W → Option W → Result (MarketEvent W)
  event_from none price volume = throw (failure "stoll")
  event_from (some time) none volume = throw (failure "stod")
  event_from (some time) (some price) none = throw (failure "stod")
  event_from (some time) (some price) (some volume) = ok (record new_event {
    type = trade;
    symbol = symbol;
    timestamp = from_ms time;
    price = price;
    close = price;
    volume = volume;
  })

  unfoldable pub event_of : List Bytes → Result (MarketEvent W)
  event_of [] = throw (runtime_error "Replay CSV requires timestamp_ms,price[,volume]")
  event_of (time ∷ []) = throw (runtime_error "Replay CSV requires timestamp_ms,price[,volume]")
  event_of (time ∷ price ∷ columns) = event_from (stoll time) (stod price) (volume_of columns)

  unfoldable pub push_event :
      Result (MarketEvent W) → Result (List (MarketEvent W)) → Result (List (MarketEvent W))
  push_event (throw e) rest = throw e
  push_event (ok event) (throw e) = throw e
  push_event (ok event) (ok events) = ok (event ∷ events)

  -- The loop over the lines; `first` is the flag for the heading.
  unfoldable pub read_lines : Bool → List Bytes → Result (List (MarketEvent W))
  read_lines first [] = ok []
  read_lines first (line ∷ lines) =
      let same = read_lines first lines in
      let later = read_lines false lines in
      if is_blank line
      then same
      else if first && names_timestamp line
      then later
      else push_event (event_of (columns_of line)) later

  unfoldable pub sort_events : Result (List (MarketEvent W)) → Result (List (MarketEvent W))
  sort_events (throw e) = throw e
  sort_events (ok events) = ok (stable_sort (λ e. e.timestamp) events)

  unfoldable pub read_csv : List Bytes → Result (List (MarketEvent W))
  read_csv lines = sort_events (read_lines true lines)

  sorted :
      (read : Result (List (MarketEvent W))) (events : List (MarketEvent W))
      → sort_events read ≡ ok events
      → (parsed : List (MarketEvent W)) × (read ≡ ok parsed)
        × IsSorted (λ e. e.timestamp) events
        × ((t : ℕ) → at_key (λ e. e.timestamp) t events ≡ at_key (λ e. e.timestamp) t parsed)
  unfolding sort_events
  sorted (throw e) events h = absurd (ground arith)
  sorted (ok parsed) events h =
      let same : stable_sort (λ e. e.timestamp) parsed ≡ events = cc in
      (
        parsed,
        refl,
        rw (← same) (stable_sort-IsSorted (λ e. e.timestamp) parsed),
        rw (← same) (λ t. at_key-stable_sort (λ e. e.timestamp) t parsed),
      )

  -- The events that are read are in the order of time, and those of one time are exactly the lines' events of
  -- that time, in the order of the file.
  pub read_csv-IsSorted :
      (lines : List Bytes) (events : List (MarketEvent W))
      → read_csv lines ≡ ok events
      → (parsed : List (MarketEvent W)) × (read_lines true lines ≡ ok parsed)
        × IsSorted (λ e. e.timestamp) events
        × ((t : ℕ) → at_key (λ e. e.timestamp) t events ≡ at_key (λ e. e.timestamp) t parsed)
  unfolding read_csv
  read_csv-IsSorted lines events h = sorted (read_lines true lines) events h

-- The columns of a line are the fields that were joined by commas, if no field holds a comma and the last one
-- is not empty.
pub columns_of-joined :
    (fields : List Bytes)
    → well_separated comma fields ≡ true
    → columns_of (joined comma fields) ≡ fields
unfolding columns_of
columns_of-joined fields h = split_from-joined comma fields h
