-- ===== src/Trader/Query.antt =====
-- src/sentum/trader/TradeBuilder.cpp and src/sentum/trader/TradeValidator.cpp: the query of an order as a list
-- of bytes. The builder's map is a list of pairs in its order, with each key once; the validator's map is a
-- list with each key once. `std::stod` is a parameter; `none` is an exception.
pub mod Fields
use sentum.Prelude.{
  ℕ, String, Bool, true, false, not, ◌&&◌, Option, none, some, List, [], ◌∷◌, ◌++◌, if◌then◌else◌,
  ◌==◌, ltb, map,
}
use sentum.Prelude.Split.{split_from, joined, is_blank}
use sentum.Collector.Parser.{Bytes}
use sentum.Float.{Double, le, nought}

abbrev pub Params : Type 0
Params = List (Bytes × Bytes)

unfoldable pub bytes_eq : Bytes → Bytes → Bool
bytes_eq [] [] = true
bytes_eq [] (b ∷ ys) = false
bytes_eq (a ∷ xs) [] = false
bytes_eq (a ∷ xs) (b ∷ ys) = a == b && bytes_eq xs ys

-- The order of `std::string`.
unfoldable pub bytes_lt : Bytes → Bytes → Bool
bytes_lt [] [] = false
bytes_lt [] (b ∷ ys) = true
bytes_lt (a ∷ xs) [] = false
bytes_lt (a ∷ xs) (b ∷ ys) =
    let rest = bytes_lt xs ys in if ltb a b then true else if ltb b a then false else rest

-- A setter of the builder: `params_[key] = value`.
unfoldable pub set_param : Bytes → Bytes → Params → Params
set_param key value [] = (key, value) ∷ []
set_param key value ((k, v) ∷ rest) =
    let later = set_param key value rest in
    if bytes_eq k key
    then (k, value) ∷ rest
    else if bytes_lt key k
    then (key, value) ∷ (k, v) ∷ rest
    else (k, v) ∷ later

abbrev pub equals : ℕ
equals = 61

abbrev pub ampersand : ℕ
ampersand = 38

abbrev pub token_of : Bytes × Bytes → Bytes
token_of (key, value) = key ++ (equals ∷ value)

unfoldable pub build : Params → Bytes
build params = joined ampersand (map token_of params)

-- `find('=')` with the two `substr`.
unfoldable pub cut : Bytes → Option (Bytes × Bytes)
cut [] = none
cut (b ∷ token) =
    let rest = cut token in
    if b == equals
    then some ([], token)
    else elim rest [ none ↦ none | some (key, value) ↦ some (b ∷ key, value) ]

-- `params[key] = val` of the validator.
unfoldable pub put : Bytes → Bytes → Params → Params
put key value [] = (key, value) ∷ []
put key value ((k, v) ∷ rest) =
    let later = put key value rest in if bytes_eq k key then (k, value) ∷ rest else (k, v) ∷ later

unfoldable pub put_token : Option (Bytes × Bytes) → Params → Params
put_token none params = params
put_token (some (key, value)) params = put key value params

-- The loop of the validator over the tokens.
unfoldable pub read_tokens : Params → List Bytes → Params
read_tokens params [] = params
read_tokens params (token ∷ tokens) = read_tokens (put_token (cut token) params) tokens

unfoldable pub read_query : Bytes → Params
read_query query = read_tokens [] (split_from ampersand [] query)
