-- ===== src/Collector/Symbols/Lookup.antt =====
-- What the collector's table of symbols finds.
use Prim.Native.Nat.{bit_xor}
use sentum.Prelude.{
  ℕ, suc, not, sym, inl, inr, Bool-cases, ◌+◌, ◌*◌, ◌%◌, ◌^◌, ◌≡◌, refl, ap, ◌∙◌, Bool, true, false,
  ◌&&◌, Option, none, some, List, [], ◌∷◌, ◌++◌, map, if◌then◌else◌, ◌==◌, length, get_elem?, arith,
}
use mathlib.Core.List.{append-nil, append_assoc}
use sentum.Collector.Parser.{Bytes}
use sentum.Collector.Symbols.{
  to_upper, to_lower, symbol_hash_from, symbol_hash, Directory, find_hash, emplace, initialize_from,
  initialize_symbols, same_letters, symbol_ref, resolve_at, resolve_symbol,
}

letters_eq :
    (canonical symbol : Bytes)
    → (length canonical == length symbol && same_letters canonical symbol) ≡ true
    → canonical ≡ map to_lower symbol
unfolding same_letters
letters_eq [] [] h = refl
letters_eq [] (b ∷ symbol) h = absurd (ground arith)
letters_eq (a ∷ canonical) [] h = absurd (ground arith)
letters_eq (a ∷ canonical) (b ∷ symbol) h =
    let head : a ≡ to_lower b = ground arith in
    let rest : (length canonical == length symbol && same_letters canonical symbol) ≡ true =
      ground arith in
    rw (head, letters_eq canonical symbol rest) refl

letters_refl :
    (symbol : Bytes)
    → (length (map to_lower symbol) == length symbol && same_letters (map to_lower symbol) symbol)
      ≡ true
unfolding same_letters
letters_refl [] = refl
letters_refl (b ∷ symbol) = ground (arith, letters_refl symbol)

upper_of_lower : (a b : ℕ) → to_lower a ≡ to_lower b → to_upper a ≡ to_upper b
unfolding to_lower to_upper
upper_of_lower a b h = ground arith

-- The hash does not see the case of the letters.
symbol_hash_from_case :
    (hash : ℕ) (xs ys : Bytes)
    → map to_lower xs ≡ map to_lower ys
    → symbol_hash_from hash xs ≡ symbol_hash_from hash ys
unfolding symbol_hash_from
symbol_hash_from_case hash [] [] h = refl
symbol_hash_from_case hash [] (b ∷ ys) h = absurd (ground arith)
symbol_hash_from_case hash (a ∷ xs) [] h = absurd (ground arith)
symbol_hash_from_case hash (a ∷ xs) (b ∷ ys) h =
    let head : to_lower a ≡ to_lower b = ground arith in
    let rest : map to_lower xs ≡ map to_lower ys = ground arith in
    rw (upper_of_lower a b head)
      (symbol_hash_from_case (bit_xor hash (to_upper b) * 1099511628211 % 2 ^ 64) xs ys rest)

abbrev or_else : Option ℕ → Option ℕ → Option ℕ
or_else none other = other
or_else (some a) other = some a

or_else_assoc : (a b c : Option ℕ) → or_else (or_else a b) c ≡ or_else a (or_else b c)
or_else_assoc none b c = refl
or_else_assoc (some a) b c = refl

or_else_none : (a : Option ℕ) → or_else a none ≡ a
or_else_none none = refl
or_else_none (some a) = refl

hash_case : (xs ys : Bytes) → map to_lower xs ≡ map to_lower ys → symbol_hash xs ≡ symbol_hash ys
unfolding symbol_hash
hash_case xs ys h = symbol_hash_from_case 1469598103934665603 xs ys h

abbrev start : Directory
start = record { canonical_symbols = []; symbol_by_hash = [] }

nothing_at : (hash : ℕ) → find_hash hash start.symbol_by_hash ≡ none
unfolding find_hash
nothing_at hash = refl

find_hash-emplace :
    (hash index wanted : ℕ) (entries : List (ℕ × ℕ))
    → find_hash wanted (emplace hash index entries)
      ≡ or_else (find_hash wanted entries) (if hash == wanted then some index else none)
unfolding find_hash emplace
find_hash-emplace hash index wanted [] = refl
find_hash-emplace hash index wanted ((key, old) ∷ entries) =
    ground (arith, find_hash-emplace hash index wanted entries)

-- The first market with the hash.
abbrev first_with : ℕ → ℕ → List Bytes → Option ℕ
first_with wanted i [] = none
first_with wanted i (market ∷ markets) =
    let later = first_with wanted (suc i) markets in
    if symbol_hash market == wanted then some i else later

or_else_test :
    (b : Bool) (i : ℕ) (other : Option ℕ)
    → or_else (if b then some i else none) other ≡ (if b then some i else other)
or_else_test true i other = refl
or_else_test false i other = refl

find_hash-initialize_from :
    (wanted i : ℕ) (markets : List Bytes) (d : Directory)
    → find_hash wanted (initialize_from i markets d).symbol_by_hash
      ≡ or_else (find_hash wanted d.symbol_by_hash) (first_with wanted i markets)
unfolding initialize_from
find_hash-initialize_from wanted i [] d = sym (or_else_none (find_hash wanted d.symbol_by_hash))
find_hash-initialize_from wanted i (market ∷ markets) d =
    find_hash-initialize_from wanted (suc i) markets _
    ∙ ap (λ o. or_else o (first_with wanted (suc i) markets))
        (find_hash-emplace (symbol_hash market) i wanted d.symbol_by_hash)
    ∙ or_else_assoc (find_hash wanted d.symbol_by_hash) _ _
    ∙ ap (or_else (find_hash wanted d.symbol_by_hash))
        (or_else_test (symbol_hash market == wanted) i (first_with wanted (suc i) markets))

canonical_symbols_lem :
    (i : ℕ) (markets : List Bytes) (d : Directory)
    → (initialize_from i markets d).canonical_symbols
      ≡ d.canonical_symbols ++ map (map to_lower) markets
unfolding initialize_from
canonical_symbols_lem i [] d = sym (append-nil d.canonical_symbols)
canonical_symbols_lem i (market ∷ markets) d =
    canonical_symbols_lem (suc i) markets _
    ∙ append_assoc d.canonical_symbols (map to_lower market ∷ []) (map (map to_lower) markets)

-- None of the markets has the hash.
abbrev avoids : ℕ → List Bytes → Bool
avoids hash [] = true
avoids hash (market ∷ markets) = not (symbol_hash market == hash) && avoids hash markets

first_with_lem :
    (i : ℕ) (before : List Bytes) (market : Bytes) (after : List Bytes)
    → avoids (symbol_hash market) before ≡ true
    → first_with (symbol_hash market) i (before ++ (market ∷ after)) ≡ some (i + length before)
first_with_lem i [] market after h = ground arith
first_with_lem i (other ∷ before) market after h =
    ground (arith, first_with_lem (suc i) before market after)

canonical_at :
    (before : List Bytes) (market : Bytes) (after : List Bytes)
    → get_elem? (map (map to_lower) (before ++ (market ∷ after))) (length before)
      ≡ some (map to_lower market)
canonical_at [] market after = refl
canonical_at (other ∷ before) market after = canonical_at before market after

-- A symbol of the stream, in whatever case it is written, is resolved to the market of that name: its number
-- and its lower-case name, if no earlier market has the same hash.
pub resolve_symbol_finds :
    (before : List Bytes) (market : Bytes) (after : List Bytes) (symbol : Bytes)
    → avoids (symbol_hash market) before ≡ true
    → map to_lower symbol ≡ map to_lower market
    → resolve_symbol (initialize_symbols (before ++ (market ∷ after))) symbol
      ≡ some ((length before + 1) % 2 ^ 32, map to_lower market)
unfolding resolve_symbol resolve_at initialize_symbols symbol_ref
resolve_symbol_finds before market after symbol fresh same =
    let plain : 0 + length before ≡ length before = omega arith in
    let equal : (length (map to_lower market) == length symbol
          && same_letters (map to_lower market) symbol)
        ≡ true =
      rw (← same) (letters_refl symbol) in
    rw (
      hash_case symbol market same,
      find_hash-initialize_from (symbol_hash market) 0 (before ++ (market ∷ after)) start,
      nothing_at (symbol_hash market),
      first_with_lem 0 before market after fresh,
      canonical_symbols_lem 0 (before ++ (market ∷ after)) start,
      plain,
      canonical_at before market after,
      equal,
    )

found_at :
    (index : ℕ) (symbol : Bytes) (id : ℕ) (canonical : Bytes) (stored : Option Bytes)
    → symbol_ref index stored symbol ≡ some (id, canonical)
    → (canonical ≡ map to_lower symbol) × (id ≡ (index + 1) % 2 ^ 32) × (stored ≡ some canonical)
unfolding symbol_ref
found_at index symbol id canonical none h = absurd (ground arith)
found_at index symbol id canonical (some name) h =
    elim (Bool-cases (length name == length symbol && same_letters name symbol)) [
      | inl same ↦
          let found : ◌≡◌ {A = Option (ℕ × Bytes)} (some ((index + 1) % 2 ^ 32, name))
              (some (id, canonical)) =
            rw same at h in
          (cc (letters_eq name symbol same), cc, cc)
      | inr other ↦ absurd (ground arith)
    ]

resolved :
    (d : Directory) (symbol : Bytes) (id : ℕ) (canonical : Bytes) (found : Option ℕ)
    → resolve_at d found symbol ≡ some (id, canonical)
    → (canonical ≡ map to_lower symbol)
      × ((index : ℕ) × (id ≡ (index + 1) % 2 ^ 32)
          × (get_elem? d.canonical_symbols index ≡ some canonical))
unfolding resolve_at
resolved d symbol id canonical none h = absurd (ground arith)
resolved d symbol id canonical (some index) h =
    let (name, number, stored) =
      found_at index symbol id canonical (get_elem? d.canonical_symbols index) h in
    (name, (index, number, stored))

-- Whatever the table holds, a symbol is never resolved to another name: what is found is the symbol in lower
-- case, and the number is that of its place among the known names.
pub resolve_symbol_sound :
    (d : Directory) (symbol : Bytes) (id : ℕ) (canonical : Bytes)
    → resolve_symbol d symbol ≡ some (id, canonical)
    → (canonical ≡ map to_lower symbol)
      × ((index : ℕ) × (id ≡ (index + 1) % 2 ^ 32)
          × (get_elem? d.canonical_symbols index ≡ some canonical))
unfolding resolve_symbol
resolve_symbol_sound d symbol id canonical h =
    resolved d symbol id canonical (find_hash (symbol_hash symbol) d.symbol_by_hash) h
