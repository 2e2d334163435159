-- ===== src/Market/Store/Names.antt =====
-- src/sentum/market/MarketDataStore.hpp: a registered number over later calls of the store.
use sentum.Prelude.{
  ℕ, zero, suc, ◌+◌, ◌<◌, ◌≡◌, ◌≢◌, refl, sym, ap, ◌∙◌, inl, inr, String, Bool, true, not, ◌&&◌,
  ◌||◌, Option, none, some, List, [], ◌∷◌, arith, eq_iff, if◌then◌else◌, ◌==◌, leb, length,
  get_elem?, get_elem?-set_ne, set, Option-cases, Bool-cases, if-elim,
}
use sentum.Prelude.Dict.{lookup, lookup-insert, str_eq}
use sentum.Float.{Double}
use sentum.Market.Types.{SymbolId, invalid_symbol_id, Kline}
use sentum.Market.Store.{
  MarketDataStore, get_or_create, find_id, resize, register_symbol, upsert_at, upsert_symbol,
  upsert_id,
}
use sentum.Market.Store.Alias.{
  registered, get_elem?-append_left, get_or_create_old, get_or_create_new,
}

-- A later call that changes the store.
pub data Call (W : Type 0) : Type 0 where
  register : SymbolId → String → Call W
  write_symbol : String → Kline W → Call W
  write_id : SymbolId → Kline W → Call W

get_elem?_bound {ℓ} :
    {A : Type ℓ} (xs : List A) (i : ℕ) (x : A) → get_elem? xs i ≡ some x → i < length xs
get_elem?_bound [] i x h = absurd (ground (arith, h))
get_elem?_bound (y ∷ xs) zero x h = omega arith
get_elem?_bound (y ∷ xs) (suc i) x h = omega (arith, get_elem?_bound xs i x h)

module _ {W : Type 0} ⦃d : Double W⦄ where
  abbrev pub do_call : MarketDataStore W → Call W → MarketDataStore W
  do_call s (register id symbol) = register_symbol s id symbol
  do_call s (write_symbol symbol k) = upsert_symbol s symbol k
  do_call s (write_id id k) = upsert_id s id k

  abbrev pub run_calls : MarketDataStore W → List (Call W) → MarketDataStore W
  run_calls s [] = s
  run_calls s (call ∷ calls) = run_calls (do_call s call) calls

  -- The number is not given to another symbol.
  abbrev pub keeps : SymbolId → String → List (Call W) → Bool
  keeps id symbol [] = true
  keeps id symbol (register j k ∷ calls) =
      (not (j == id) || str_eq k symbol) && keeps id symbol calls
  keeps id symbol (write_symbol k x ∷ calls) = keeps id symbol calls
  keeps id symbol (write_id j x ∷ calls) = keeps id symbol calls

  -- The number and the symbol lead to one ring.
  record Named (s : MarketDataStore W) (id : SymbolId) (symbol : String) : Type 0 where
    ring : ℕ
    by_id : get_elem? s.id_buffers id ≡ some (some ring)
    by_symbol : lookup symbol s.buffers ≡ some ring

  some_at :
      (s : MarketDataStore W) (id : SymbolId) (p : ℕ)
      → find_id s id ≡ some p
      → get_elem? s.id_buffers id ≡ some (some p)
  unfolding find_id
  some_at s id p h = elim (Option-cases (get_elem? s.id_buffers id)) [
    | inl e ↦ absurd (ground (arith, h, e))
    | inr (q, e) ↦ e ∙ ap some (sym (rw (e, find_id) refl) ∙ h)
  ]

  registered-Named :
      (s : MarketDataStore W) (id : SymbolId) (symbol : String)
      → id ≢ invalid_symbol_id
      → Named (register_symbol s id symbol) id symbol
  registered-Named s id symbol h =
      let (by_id, by_symbol) = registered s id symbol h in
      record {
        ring = (get_or_create s symbol).1;
        by_id = some_at (register_symbol s id symbol) id (get_or_create s symbol).1 by_id;
        by_symbol = by_symbol;
      }

  -- Another symbol's ring, found or made, changes neither way to the ring.
  get_or_create-Named :
      (s : MarketDataStore W) (id : SymbolId) (symbol k : String)
      → Named s id symbol
      → Named (get_or_create s k).0 id symbol
  get_or_create-Named s id symbol k n = elim (Option-cases (lookup k s.buffers)) [
    | inl new ↦ rw (get_or_create_new s k new) (record {
      ring = n.ring;
      by_id = n.by_id;
      by_symbol =
          lookup-insert k symbol (length s.cells) s.buffers
          ∙ ground (arith, new, n.by_symbol, eq_iff k symbol);
    })
    | inr (p, old) ↦ rw (get_or_create_old s k p old) n
  ]

  upsert_at-Named :
      (s : MarketDataStore W) (id : SymbolId) (symbol : String) (q : Option ℕ) (k : Kline W)
      → Named s id symbol
      → Named (upsert_at s q k) id symbol
  unfolding upsert_at
  upsert_at-Named s id symbol none k n = n
  upsert_at-Named s id symbol (some q) k n = elim (Option-cases (get_elem? s.cells q)) [
    | inl e ↦ rw (e, upsert_at) n
    | inr (b, e) ↦
        rw (e, upsert_at) (record { ring = n.ring; by_id = n.by_id; by_symbol = n.by_symbol })
  ]

  -- A registration of another number.
  set-Named :
      (s : MarketDataStore W) (id j : SymbolId) (symbol : String) (v : Option ℕ)
      → j ≢ id
      → Named s id symbol
      → Named
          (record s {
            id_buffers =
                set
                  (if leb (length s.id_buffers) j
                    then resize s.id_buffers (j + 1)
                    else s.id_buffers)
                  j
                  v;
          })
          id
          symbol
  set-Named s id j symbol v ne n = record {
    ring = n.ring;
    by_id =
        get_elem?-set_ne
          (if leb (length s.id_buffers) j then resize s.id_buffers (j + 1) else s.id_buffers) v ne
        ∙ if-elim (λ (ids : List (Option ℕ)). get_elem? ids id ≡ some (some n.ring))
            (leb (length s.id_buffers) j)
            (λ _.
              get_elem?-append_left s.id_buffers _ id
                (get_elem?_bound s.id_buffers id (some n.ring) n.by_id)
              ∙ n.by_id)
            (λ _. n.by_id);
    by_symbol = n.by_symbol;
  }

  register-Named :
      (s : MarketDataStore W) (id j : SymbolId) (symbol k : String)
      → j ≢ id
      → Named s id symbol
      → Named (register_symbol s j k) id symbol
  unfolding register_symbol
  register-Named s id j symbol k ne n =
      if-elim (λ (t : MarketDataStore W). Named t id symbol) (j == invalid_symbol_id) (λ _. n)
        (λ _.
          set-Named (get_or_create s k).0 id j symbol (some (get_or_create s k).1) ne
            (get_or_create-Named s id symbol k n))

  run_calls-Named :
      (calls : List (Call W)) (s : MarketDataStore W) (id : SymbolId) (symbol : String)
      → id ≢ invalid_symbol_id
      → keeps id symbol calls ≡ true
      → Named s id symbol
      → Named (run_calls s calls) id symbol
  unfolding upsert_symbol upsert_id
  run_calls-Named [] s id symbol h kept n = n
  run_calls-Named (register j k ∷ calls) s id symbol h kept n =
      run_calls-Named calls (register_symbol s j k) id symbol h (ground arith)
        (elim (Bool-cases (j == id)) [
          | inl same ↦
              let number : j ≡ id = ground arith in
              let name : k ≡ symbol = ground (arith, eq_iff k symbol) in
              rw (number, name) (registered-Named s id symbol h)
          | inr other ↦ register-Named s id j symbol k (ground arith) n
        ])
  run_calls-Named (write_symbol k x ∷ calls) s id symbol h kept n =
      run_calls-Named calls (upsert_symbol s k x) id symbol h kept (
        upsert_at-Named (get_or_create s k).0 id symbol (some (get_or_create s k).1) x
          (get_or_create-Named s id symbol k n))
  run_calls-Named (write_id j x ∷ calls) s id symbol h kept n =
      run_calls-Named calls (upsert_id s j x) id symbol h kept
        (upsert_at-Named s id symbol (find_id s j) x n)

  -- From its registration on, writing by a number is writing by its symbol, after any further registrations and
  -- writes that do not give the number to another symbol.
  pub upsert_id-eq-upsert_symbol :
      (s : MarketDataStore W) (id : SymbolId) (symbol : String) (calls : List (Call W))
      (k : Kline W)
      → id ≢ invalid_symbol_id
      → keeps id symbol calls ≡ true
      → let r = run_calls (register_symbol s id symbol) calls in
        upsert_id r id k ≡ upsert_symbol r symbol k
  unfolding upsert_id upsert_symbol find_id
  upsert_id-eq-upsert_symbol s id symbol calls k h kept =
      let r = run_calls (register_symbol s id symbol) calls in
      let n =
        run_calls-Named calls (register_symbol s id symbol) id symbol h kept
          (registered-Named s id symbol h) in
      rw (n.by_id, find_id) (rw (get_or_create_old r symbol n.ring n.by_symbol) refl)
