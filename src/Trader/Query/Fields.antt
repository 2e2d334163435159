-- ===== src/Trader/Query/Fields.antt =====
-- What the validator reads of a query that the builder made.
use sentum.Prelude.{
  ℕ, ◌≡◌, refl, sym, ap, ◌∙◌, Bool, true, false, not, ◌&&◌, some, [], ◌∷◌, ◌++◌, ◌==◌, map, arith,
}
use mathlib.Core.List.{append_assoc, append-nil}
use sentum.Prelude.Split.{avoids, well_separated, is_blank, split_from-joined}
use sentum.Collector.Parser.{Bytes}
use sentum.Trader.Query.{
  Params, bytes_eq, equals, ampersand, token_of, build, cut, put, put_token, read_tokens,
  read_query,
}

-- No other key of the list is the given one.
abbrev pub is_new : Bytes → Params → Bool
is_new key [] = true
is_new key ((k, v) ∷ rest) = not (bytes_eq k key) && is_new key rest

-- Neither text holds an ampersand, and the key no equals sign; each key stands once.
abbrev pub is_plain : Params → Params → Bool
is_plain before [] = true
is_plain before ((key, value) ∷ rest) =
    avoids ampersand key
    && (avoids equals key
        && (avoids ampersand value
            && (is_new key before && is_plain (before ++ ((key, value) ∷ [])) rest)))

cut-token_of :
    (key value : Bytes)
    → avoids equals key ≡ true
    → cut (key ++ (equals ∷ value)) ≡ some (key, value)
unfolding cut
cut-token_of [] value h = refl
cut-token_of (b ∷ key) value h =
    let apart : (b == equals) ≡ false = ground arith in
    rw (apart, cut-token_of key value (ground arith)) refl

put_new :
    (key value : Bytes) (params : Params)
    → is_new key params ≡ true
    → put key value params ≡ params ++ ((key, value) ∷ [])
unfolding put
put_new key value [] h = refl
put_new key value ((k, v) ∷ rest) h =
    let apart : bytes_eq k key ≡ false = ground arith in
    rw (apart, put_new key value rest (ground arith)) refl

read_tokens_lem :
    (before params : Params)
    → is_plain before params ≡ true
    → read_tokens before (map token_of params) ≡ before ++ params
unfolding read_tokens put_token
read_tokens_lem before [] h = sym (append-nil before)
read_tokens_lem before ((key, value) ∷ rest) h =
    ap (λ o. read_tokens (put_token o before) (map token_of rest))
      (cut-token_of key value (ground arith))
    ∙ ap (λ p. read_tokens p (map token_of rest)) (put_new key value before (ground arith))
    ∙ read_tokens_lem (before ++ ((key, value) ∷ [])) rest (ground arith)
    ∙ append_assoc before ((key, value) ∷ []) rest

avoids-append :
    (sep : ℕ) (xs ys : Bytes)
    → avoids sep xs ≡ true
    → avoids sep ys ≡ true
    → avoids sep (xs ++ ys) ≡ true
avoids-append sep [] ys h k = k
avoids-append sep (x ∷ xs) ys h k = ground (arith, avoids-append sep xs ys)

token_avoids :
    (key value : Bytes)
    → avoids ampersand key ≡ true
    → avoids ampersand value ≡ true
    → avoids ampersand (token_of (key, value)) ≡ true
token_avoids key value h k = avoids-append ampersand key (equals ∷ value) h (ground arith)

token_not_blank : (key value : Bytes) → is_blank (token_of (key, value)) ≡ false
token_not_blank [] value = refl
token_not_blank (b ∷ key) value = refl

tokens_separated :
    (before params : Params)
    → is_plain before params ≡ true
    → well_separated ampersand (map token_of params) ≡ true
tokens_separated before [] h = refl
tokens_separated before ((key, value) ∷ []) h =
    let clean = token_avoids key value (ground arith) (ground arith) in
    rw (clean, token_not_blank key value) refl
tokens_separated before ((key, value) ∷ next ∷ rest) h =
    let clean = token_avoids key value (ground arith) (ground arith) in
    let others : well_separated ampersand (map token_of (next ∷ rest)) ≡ true =
      tokens_separated (before ++ ((key, value) ∷ [])) (next ∷ rest) (ground arith) in
    rw (clean, others) refl

-- The validator reads from the query that is built from some parameters exactly these, in their order, if no
-- text holds an ampersand, no key an equals sign, and each key stands once.
pub read_query-build :
    (params : Params) → is_plain [] params ≡ true → read_query (build params) ≡ params
unfolding read_query build
read_query-build params h =
    ap (read_tokens [])
      (split_from-joined ampersand (map token_of params) (tokens_separated [] params h))
    ∙ read_tokens_lem [] params h
