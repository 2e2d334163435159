-- ===== src/Market/Store/Alias.antt =====
-- The pointers of the store: a number that is registered for a symbol reaches the symbol's own ring, and
-- no two symbols share one.
use sentum.Prelude.{
  ℕ, zero, suc, ◌+◌, ◌-◌, ◌<◌, ◌≡◌, refl, ap, ◌∙◌, ◌≢◌, inl, inr, String, false, Option, none, some,
  List, [], ◌∷◌, ◌++◌, arith, eq_iff, if◌then◌else◌, ◌==◌, leb, length, length-append,
  length-replicate, get_elem?, get_elem?-set_self, get_elem?-set_ne, set, replicate, Option-cases,
}
use sentum.Prelude.Dict.{lookup, insert, lookup-insert, lookup-insert_self, lookup-insert_ne}
use sentum.Float.{Double}
use sentum.Market.Types.{SymbolId, invalid_symbol_id, Kline}
use sentum.Market.Store.{
  MarketDataStore, new_store, get_or_create, find_symbol, find_id, resize, register_symbol, deref,
  upsert_at, upsert_symbol, latest_symbol,
}
use sentum.Market.Store.Buffer.{new_buffer, upsert_buffer, latest_buffer}

pub get_elem?-append_left {ℓ} :
    {A : Type ℓ} (xs ys : List A) (i : ℕ) → i < length xs → get_elem? (xs ++ ys) i ≡ get_elem? xs i
get_elem?-append_left [] ys i h = elim h [ ]
get_elem?-append_left (x ∷ xs) ys zero h = refl
get_elem?-append_left (x ∷ xs) ys (suc i) h = get_elem?-append_left xs ys i (omega arith)

module _ {W : Type 0} ⦃d : Double W⦄ where
  -- Every pointer of the map is to a ring, and different symbols have different rings.
  pub record IsWired (s : MarketDataStore W) : Type 0 where
    pub valid : (k : String) (p : ℕ) → lookup k s.buffers ≡ some p → p < length s.cells
    pub apart :
        (k j : String) (p : ℕ) → lookup k s.buffers ≡ some p → lookup j s.buffers ≡ some p → k ≡ j

  pub new_store-IsWired : (c : ℕ) → IsWired (new_store c)
  unfolding lookup
  new_store-IsWired c = record { valid = λ k p e. ground arith; apart = λ k j p e f. ground arith }

  abbrev pub grown : MarketDataStore W → String → MarketDataStore W
  grown s k = record s {
    cells = s.cells ++ (new_buffer s.capacity_per_symbol ∷ []);
    buffers = insert k (length s.cells) s.buffers;
  }

  pub get_or_create_old :
      (s : MarketDataStore W) (k : String) (p : ℕ)
      → lookup k s.buffers ≡ some p
      → get_or_create s k ≡ (s, p)
  unfolding get_or_create
  get_or_create_old s k p e = rw (e, get_or_create)

  pub get_or_create_new :
      (s : MarketDataStore W) (k : String)
      → lookup k s.buffers ≡ none
      → get_or_create s k ≡ (grown s k, length s.cells)
  unfolding get_or_create
  get_or_create_new s k e = rw (e, get_or_create)

  -- After the call the symbol is found at the returned pointer.
  get_or_create-found :
      (s : MarketDataStore W) (k : String)
      → lookup k (get_or_create s k).0.buffers ≡ some (get_or_create s k).1
  get_or_create-found s k = elim (Option-cases (lookup k s.buffers)) [
    | inl e ↦ rw (get_or_create_new s k e) (lookup-insert_self k (length s.cells) s.buffers)
    | inr (p, e) ↦ rw (get_or_create_old s k p e) e
  ]

  grown-IsWired :
      (s : MarketDataStore W) (k : String)
      → lookup k s.buffers ≡ none
      → IsWired s
      → IsWired (grown s k)
  grown-IsWired s k new w = record {
    valid = λ j p e. ground (
      arith,
      lookup-insert k j (length s.cells) s.buffers,
      eq_iff k j,
      w.valid j p,
      length-append s.cells (new_buffer s.capacity_per_symbol ∷ []),
    );
    apart = λ j i p e f. ground (
      arith,
      lookup-insert k j (length s.cells) s.buffers,
      lookup-insert k i (length s.cells) s.buffers,
      eq_iff k j,
      eq_iff k i,
      w.apart j i p,
      w.valid j p,
      w.valid i p,
    );
  }

  pub get_or_create-IsWired :
      (s : MarketDataStore W) (k : String) → IsWired s → IsWired (get_or_create s k).0
  get_or_create-IsWired s k w = elim (Option-cases (lookup k s.buffers)) [
    | inl e ↦ rw (get_or_create_new s k e) (grown-IsWired s k e w)
    | inr (p, e) ↦ rw (get_or_create_old s k p e) w
  ]

  pub registered :
      (s : MarketDataStore W) (id : SymbolId) (symbol : String)
      → id ≢ invalid_symbol_id
      → let r = register_symbol s id symbol in
        let p = (get_or_create s symbol).1 in
        (find_id r id ≡ some p) × (lookup symbol r.buffers ≡ some p)
  unfolding register_symbol find_id
  registered s id symbol h = rw some_id (rw (found, find_id) refl, get_or_create-found s symbol)
    where
      some_id : (id == 0) ≡ false
      some_id = ground arith

      ids : List (Option ℕ)
      ids = (get_or_create s symbol).0.id_buffers

      roomy : List (Option ℕ)
      roomy = if leb (length ids) id then resize ids (id + 1) else ids

      long : id < length roomy
      long = ground (
        arith,
        length-append ids (replicate (id + 1 - length ids) none),
        length-replicate {A = Option ℕ} (id + 1 - length ids) none,
      )

      found :
          get_elem? (set roomy id (some (get_or_create s symbol).1)) id
          ≡ some (some (get_or_create s symbol).1)
      found = get_elem?-set_self roomy id (some (get_or_create s symbol).1) long

  upsert_at_frame :
      (s : MarketDataStore W) (p q : ℕ) (k : Kline W)
      → p ≢ q
      → get_elem? (upsert_at s (some p) k).cells q ≡ get_elem? s.cells q
  unfolding upsert_at
  upsert_at_frame s p q k h = elim (Option-cases (get_elem? s.cells p)) [
    | inl e ↦ rw (e, upsert_at) refl
    | inr (b, e) ↦ rw (e, upsert_at) (get_elem?-set_ne s.cells (upsert_buffer b k) h)
  ]

  upsert_at_buffers :
      (s : MarketDataStore W) (p : ℕ) (k : Kline W) → (upsert_at s (some p) k).buffers ≡ s.buffers
  unfolding upsert_at
  upsert_at_buffers s p k = ground arith

  -- A write to one symbol leaves what the readers of another one see.
  pub upsert_symbol_frame :
      (s : MarketDataStore W) (symbol other : String) (k : Kline W) (limit : ℕ)
      → IsWired s
      → symbol ≢ other
      → latest_symbol (upsert_symbol s symbol k) other limit ≡ latest_symbol s other limit
  unfolding latest_symbol upsert_symbol find_symbol
  upsert_symbol_frame s symbol other k limit w h =
      ap (λ b. latest_buffer b limit)
        (elim (Option-cases (lookup symbol s.buffers)) [
          | inl new ↦ rw (get_or_create_new s symbol new) (
              same (grown s symbol) (length s.cells)
                (lookup-insert_ne symbol other (length s.cells) s.buffers h)
                (λ q e. omega (arith, w.valid other q e))
                (λ q e. get_elem?-append_left s.cells _ q (w.valid other q e)))
          | inr (p, old) ↦ rw (get_or_create_old s symbol p old) (
              same s p refl (λ q e r. h (w.apart symbol other q (old ∙ ap some r) e)) (λ q e. refl))
        ])
    where
      same :
          (t : MarketDataStore W) (p : ℕ)
          → lookup other t.buffers ≡ lookup other s.buffers
          → ((q : ℕ) → lookup other s.buffers ≡ some q → p ≢ q)
          → ((q : ℕ) → lookup other s.buffers ≡ some q → get_elem? t.cells q ≡ get_elem? s.cells q)
          → deref (upsert_at t (some p) k) (lookup other (upsert_at t (some p) k).buffers)
            ≡ deref s (lookup other s.buffers)
      same t p names ne cells =
          rw (upsert_at_buffers t p k, names)
            (elim (Option-cases (lookup other s.buffers)) [
              | inl e ↦ rw e refl
              | inr (q, e) ↦ rw e (upsert_at_frame t p q k (ne q e) ∙ cells q e)
            ])
