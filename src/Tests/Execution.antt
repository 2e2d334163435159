-- ===== src/Tests/Execution.antt =====
-- Runs of the venues and of the exchange's rules.
use sentum.Prelude.{inr, ℕ, ◌≡◌, refl, ◌⊎◌, true, false, some, [], ◌∷◌, if◌then◌else◌}
use sentum.Prelude.Int.{◌+ℤ◌}
use sentum.Prelude.Dict.{str_eq}
use sentum.Float.{le, nought, one}
use sentum.Float.Fixed.{Fixed, fixed_double, Fixed-IsFloat}
use sentum.Order.Types.{buy, new_snapshot}
use sentum.Execution.Simulated.{
  SimulatedVenue, new_venue, start, set_market, set_fill_model, fill_price,
}
use sentum.Execution.Simulated.Fills.{buy_price_adverse}
use sentum.Execution.Rules.{ExchangeRules, InfoDocument, new_rules}
use sentum.Execution.Testnet.{
  TestnetRuntime, Environment, IsPublishing, is_blocked, is_thrown, returned, on_price,
  on_price_submit_blocks,
}
use sentum.Prelude.Dict.{lookup}
use sentum.Execution.Metadata.{MetadataCache, Current, serve, rules, rules-Current}
use sentum.Tests.{dollars, risk, always}

abbrev venue : SimulatedVenue Fixed
venue =
    set_market
      (start (set_fill_model (new_venue "replay") (fixed_double.lit 2 4) (fixed_double.lit 5 4)))
      (dollars 100) 5_000

buy_price_adverse_example : le venue.market_price (fill_price venue buy) ≡ true
unfolding fill_price ◌+ℤ◌
buy_price_adverse_example = buy_price_adverse Fixed-IsFloat venue refl refl refl refl

abbrev lot_rules : ExchangeRules Fixed
lot_rules = record new_rules {
  step_size = fixed_double.lit 1 3;
  min_quantity = fixed_double.lit 1 2;
}

-- An environment whose venue reports each order before `submit` returns.
abbrev reporting : Environment ℕ Fixed
reporting = record {
  ready = λ v. true;
  submit = λ v request. record { venue = v; updates = new_snapshot ∷ []; thrown = false };
  kill = λ v. v;
  saved = λ s. true;
  decimal = λ n. "0";
}

abbrev runtime : TestnetRuntime ℕ ℕ Fixed
runtime = record {
  symbol = "BTCUSDC";
  risk = risk;
  strategy = 0;
  venue = 0;
  running = true;
  locked = false;
  active_order = "";
  exit_reason = "";
  confirmed_quantity = nought;
  entry_price = nought;
  entry_time = 0;
  last_exit = 0;
}

publishing : IsPublishing reporting always
publishing = record { publishes = λ v request. inr (new_snapshot, ([], refl)) }

on_price_submit_blocks_example :
    ((is_blocked (on_price reporting always runtime (dollars 100) 5_000) ≡ true)
      ⊎ (is_thrown reporting always (on_price reporting always runtime (dollars 100) 5_000) ≡ true))
    ⊎ ((settled : TestnetRuntime ℕ ℕ Fixed) × (on_price reporting always runtime (dollars 100) 5_000
          ≡ returned settled)
        × (settled.active_order ≡ runtime.active_order)
        × (settled.venue ≡ runtime.venue))
on_price_submit_blocks_example =
    on_price_submit_blocks reporting always runtime (dollars 100) 5_000 publishing

-- A document with one symbol and one filter, its keys read as 0, 1 and 2.
abbrev info : InfoDocument ℕ Fixed
info = record {
  iterated = λ j key. some (2 ∷ []);
  elements = λ j key. some (if str_eq key "symbols" then 1 ∷ [] else 2 ∷ []);
  value_text = λ j key fallback. some (
      if str_eq key "symbol"
      then "BTCUSDC"
      else if str_eq key "status"
      then "TRADING"
      else if str_eq key "filterType"
      then "LOT_SIZE"
      else "1");
  value_precision = λ j key fallback. some fallback;
  stod = λ text. some one;
}

abbrev read : ExchangeRules Fixed
read = record new_rules { min_quantity = one; max_quantity = one; step_size = one }

abbrev cache : MetadataCache Fixed
cache = record { ttl = 100; entries = ("BTCUSDC", record { rules = read; loaded_at = 50 }) ∷ [] }

rules-Current_example : Current info cache "BTCUSDC" 120 0 (rules info cache "BTCUSDC" 120 0) read
unfolding rules serve lookup
rules-Current_example = rules-Current info cache "BTCUSDC" 120 0 read refl
