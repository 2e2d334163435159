-- ===== src/Trader/Control.antt =====
-- src/sentum/core/RuntimeControl.hpp. `J` is the type of the strategy's JSON document. The counter of the
-- generation wraps at 64 bits.
use sentum.Prelude.{ℕ, ◌+◌, ◌%◌, String, Bool, true, false}

pub record RuntimeControl (J : Type 0) : Type 0 where
  pub strategy : J
  pub auto_symbol : Bool
  pub manual_symbol : String
  pub entries_paused : Bool
  pub manual_close : Bool
  pub generation : ℕ

module _ {J : Type 0} where
  abbrev bump : RuntimeControl J → RuntimeControl J
  bump c = record c { generation = (c.generation + 1) % 18446744073709551616 }

  abbrev pub configure : RuntimeControl J → J → Bool → String → RuntimeControl J
  configure c strategy auto_symbol manual_symbol = record c {
    strategy = strategy;
    auto_symbol = auto_symbol;
    manual_symbol = manual_symbol;
  }

  abbrev pub set_strategy : RuntimeControl J → J → RuntimeControl J
  set_strategy c value = record (bump c) { strategy = value }

  abbrev pub set_auto_symbol : RuntimeControl J → Bool → RuntimeControl J
  set_auto_symbol c value = record (bump c) { auto_symbol = value }

  abbrev pub set_manual_symbol : RuntimeControl J → String → RuntimeControl J
  set_manual_symbol c value = record (bump c) { manual_symbol = value; auto_symbol = false }

  abbrev pub pause_entries : RuntimeControl J → Bool → RuntimeControl J
  pause_entries c value = record c { entries_paused = value }

  abbrev pub request_manual_close : RuntimeControl J → RuntimeControl J
  request_manual_close c = record c { manual_close = true }

  abbrev pub consume_manual_close : RuntimeControl J → RuntimeControl J × Bool
  consume_manual_close c = (record c { manual_close = false }, c.manual_close)
