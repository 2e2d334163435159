-- ===== src/Collector/Symbols.antt =====
-- src/sentum/collector/Collector.cpp and src/sentum/market/SymbolId.hpp: the symbols that the collector knows,
-- found by a hash of their name. A name is its list of bytes. The map from hashes is a list of its entries;
-- `emplace` leaves an entry that is there. `helper::to_lowercase` is ASCII lower case on each byte.
pub mod Lookup
use Prim.Native.Nat.{bit_xor}
use sentum.Prelude.{
  ℕ, suc, not, sym, inl, inr, Bool-cases, ◌+◌, ◌-◌, ◌*◌, ◌%◌, ◌^◌, ◌≡◌, refl, ap, ◌∙◌, Bool, true,
  false, ◌&&◌, Option, none, some, List, [], ◌∷◌, ◌++◌, map, if◌then◌else◌, ◌==◌, leb, length,
  get_elem?, arith,
}
use mathlib.Core.List.{append-nil, append_assoc}
use sentum.Collector.Parser.{Bytes}

abbrev is_lower : ℕ → Bool
is_lower c = leb 97 c && leb c 122

abbrev is_upper : ℕ → Bool
is_upper c = leb 65 c && leb c 90

unfoldable pub to_upper : ℕ → ℕ
to_upper c = if is_lower c then c - 32 else c

unfoldable pub to_lower : ℕ → ℕ
to_lower c = if is_upper c then c + 32 else c

unfoldable pub symbol_hash_from : ℕ → Bytes → ℕ
symbol_hash_from hash [] = hash
symbol_hash_from hash (c ∷ value) =
    symbol_hash_from (bit_xor hash (to_upper c) * 1099511628211 % 2 ^ 64) value

unfoldable pub symbol_hash : Bytes → ℕ
symbol_hash value = symbol_hash_from 1469598103934665603 value

pub record Directory : Type 0 where
  pub canonical_symbols : List Bytes
  pub symbol_by_hash : List (ℕ × ℕ)

unfoldable pub find_hash : ℕ → List (ℕ × ℕ) → Option ℕ
find_hash hash [] = none
find_hash hash ((key, index) ∷ entries) =
    let deeper = find_hash hash entries in if key == hash then some index else deeper

unfoldable pub emplace : ℕ → ℕ → List (ℕ × ℕ) → List (ℕ × ℕ)
emplace hash index [] = (hash, index) ∷ []
emplace hash index ((key, old) ∷ entries) =
    let deeper = emplace hash index entries in
    if key == hash then (key, old) ∷ entries else (key, old) ∷ deeper

-- The loop of `initialize_symbols` from round `i` on, less the store.
unfoldable pub initialize_from : ℕ → List Bytes → Directory → Directory
initialize_from i [] d = d
initialize_from i (market ∷ markets) d = initialize_from (suc i) markets (record {
  canonical_symbols = d.canonical_symbols ++ (map to_lower market ∷ []);
  symbol_by_hash = emplace (symbol_hash market) i d.symbol_by_hash;
})

unfoldable pub initialize_symbols : List Bytes → Directory
initialize_symbols markets =
    initialize_from 0 markets (record { canonical_symbols = []; symbol_by_hash = [] })

-- The loop of `resolve_symbol` over the two names, which are of one length.
unfoldable pub same_letters : Bytes → Bytes → Bool
same_letters [] symbol = true
same_letters (a ∷ canonical) [] = true
same_letters (a ∷ canonical) (b ∷ symbol) = a == to_lower b && same_letters canonical symbol

-- `SymbolId` has 32 bits.
unfoldable pub symbol_ref : ℕ → Option Bytes → Bytes → Option (ℕ × Bytes)
symbol_ref index none symbol = none
symbol_ref index (some canonical) symbol =
    if length canonical == length symbol && same_letters canonical symbol
    then some ((index + 1) % 2 ^ 32, canonical)
    else none

unfoldable pub resolve_at : Directory → Option ℕ → Bytes → Option (ℕ × Bytes)
resolve_at d none symbol = none
resolve_at d (some index) symbol = symbol_ref index (get_elem? d.canonical_symbols index) symbol

unfoldable pub resolve_symbol : Directory → Bytes → Option (ℕ × Bytes)
resolve_symbol d symbol = resolve_at d (find_hash (symbol_hash symbol) d.symbol_by_hash) symbol
