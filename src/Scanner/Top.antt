-- ===== src/Scanner/Top.antt =====
-- The top symbol, and when its change is announced.
use sentum.Prelude.{
  ◌≡◌, ◌≢◌, ◌⊎◌, inl, inr, String, true, false, not, ◌||◌, Option, none, some, [], ◌∷◌, arith,
  if-elim, eq_iff,
}
use sentum.Prelude.Dict.{Dict, str_eq}
use sentum.Float.{Double, IsFloat, le, gt, is_number}
use sentum.Float.Order.{le_of_lt, le_of_not_lt}
use sentum.Market.Types.{MarketEvent}
use sentum.Market.Store.{MarketDataStore}
use sentum.Scanner.{
  SymbolPerformance, SymbolScanner, update_cache, unset, exceeds, better, top_from, announce,
  on_market_event,
}

module _ {W : Type 0} ⦃d : Double W⦄ where
  -- Every symbol has a name and a return that is a number.
  abbrev pub IsNamed : Dict W → Type 0
  IsNamed [] = Unit
  IsNamed ((symbol, value) ∷ cache) =
      (str_eq symbol "" ≡ false) × (is_number value ≡ true) × IsNamed cache

  abbrev pub Beats : Option (SymbolPerformance W) → W → Type 0
  Beats none value = ⊥
  Beats (some top) value = le value top.cum_return ≡ true

  -- The top is not below any return that exceeds the threshold.
  abbrev pub Covers : W → Option (SymbolPerformance W) → Dict W → Type 0
  Covers threshold top [] = Unit
  Covers threshold top ((symbol, value) ∷ cache) =
      (le value threshold ≡ false → Beats top value) × Covers threshold top cache

  -- The cache has the top, above the threshold.
  abbrev pub HoldsTop : W → SymbolPerformance W → Dict W → Type 0
  HoldsTop threshold top [] = ⊥
  HoldsTop threshold top ((symbol, value) ∷ cache) =
      ((top.symbol ≡ symbol) × (top.cum_return ≡ value) × (le value threshold ≡ false))
      ⊎ HoldsTop threshold top cache

  abbrev Usable : Option (SymbolPerformance W) → Type 0
  Usable none = Unit
  Usable (some top) = (str_eq top.symbol "" ≡ false) × (is_number top.cum_return ≡ true)

  module _ (laws : IsFloat W) (threshold : W) where
    better-Usable :
        (top : Option (SymbolPerformance W)) (symbol : String) (value : W)
        → str_eq symbol "" ≡ false
        → is_number value ≡ true
        → Usable top
        → Usable (better threshold top symbol value)
    unfolding better
    better-Usable top symbol value named number fine =
        if-elim Usable (le value threshold) (λ _. fine)
          (λ _. if-elim Usable (unset top || exceeds value top) (λ _. (named, number)) (λ _. fine))

    -- What was beaten stays beaten.
    better_keeps :
        (top : Option (SymbolPerformance W)) (symbol : String) (value old : W)
        → Usable top
        → Beats top old
        → Beats (better threshold top symbol value) old
    unfolding better
    better_keeps none symbol value old fine beats = absurd beats
    better_keeps (some top) symbol value old fine beats =
        let P : Option (SymbolPerformance W) → Type 0 = λ t. Beats t old in
        if-elim P (le value threshold) (λ _. beats)
          (λ _.
            if-elim P (str_eq top.symbol "" || gt value top.cum_return)
              (λ h.
                laws.le_trans _ _ _ beats
                  (le_of_lt laws top.cum_return value (ground (arith, fine.0))))
              (λ _. beats))

    better-Beats :
        (top : Option (SymbolPerformance W)) (symbol : String) (value : W)
        → is_number value ≡ true
        → Usable top
        → le value threshold ≡ false
        → Beats (better threshold top symbol value) value
    unfolding better
    better-Beats none symbol value number fine high = rw high number
    better-Beats (some top) symbol value number fine high =
        let P : Option (SymbolPerformance W) → Type 0 = λ t. Beats t value in
        rw high (
          if-elim P (str_eq top.symbol "" || gt value top.cum_return) (λ _. number)
            (λ h. le_of_not_lt laws top.cum_return value fine.1 number (ground arith)))

    top_from_keeps :
        (top : Option (SymbolPerformance W)) (cache : Dict W) (old : W)
        → IsNamed cache
        → Usable top
        → Beats top old
        → Beats (top_from threshold top cache) old
    unfolding top_from
    top_from_keeps top [] old named fine beats = beats
    top_from_keeps top ((symbol, value) ∷ cache) old named fine beats =
        top_from_keeps (better threshold top symbol value) cache old named.2
          (better-Usable top symbol value named.0 named.1 fine)
          (better_keeps top symbol value old fine beats)

    top_from-Covers :
        (top : Option (SymbolPerformance W)) (cache : Dict W)
        → IsNamed cache
        → Usable top
        → Covers threshold (top_from threshold top cache) cache
    unfolding top_from
    top_from-Covers top [] named fine = tt
    top_from-Covers top ((symbol, value) ∷ cache) named fine =
        let better_fine = better-Usable top symbol value named.0 named.1 fine in
        (
          λ high.
              top_from_keeps (better threshold top symbol value) cache value named.2 better_fine
                (better-Beats top symbol value named.1 fine high),
          top_from-Covers (better threshold top symbol value) cache named.2 better_fine,
        )

  from_round :
      (threshold : W) (top : Option (SymbolPerformance W)) (symbol : String) (value : W)
      (cache : Dict W) (found : SymbolPerformance W)
      → better threshold top symbol value ≡ some found
      → (top ≡ some found) ⊎ HoldsTop threshold found ((symbol, value) ∷ cache)
  unfolding better
  from_round threshold top symbol value cache found =
      let P : Option (SymbolPerformance W) → Type 0 = λ t.
        t ≡ some found → (top ≡ some found) ⊎ HoldsTop threshold found ((symbol, value) ∷ cache) in
      if-elim P (le value threshold) (λ _ h. inl h)
        (λ high.
          if-elim P (unset top || exceeds value top)
            (λ _ h. inr (inl (ground arith, ground arith, high))) (λ _ h. inl h))

  from_cache :
      (threshold : W) (top : Option (SymbolPerformance W)) (cache : Dict W)
      (found : SymbolPerformance W)
      → top_from threshold top cache ≡ some found
      → (top ≡ some found) ⊎ HoldsTop threshold found cache
  unfolding top_from
  from_cache threshold top [] found h = inl h
  from_cache threshold top ((symbol, value) ∷ cache) found h =
      elim (from_cache threshold (better threshold top symbol value) cache found h) [
        | inl here ↦ from_round threshold top symbol value cache found here
        | inr deeper ↦ inr (inr deeper)
      ]

  held :
      (threshold : W) (cache : Dict W) (found : SymbolPerformance W)
      → top_from threshold none cache ≡ some found
      → HoldsTop threshold found cache
  held threshold cache found h = elim (from_cache threshold none cache found h) [
    | inl start ↦ absurd (ground arith)
    | inr there ↦ there
  ]

  announced :
      (s : SymbolScanner W) (top : Option (SymbolPerformance W)) (call : SymbolPerformance W)
      → (announce s top).1 ≡ some call
      → (top ≡ some call)
        × (s.has_handler ≡ true)
        × (call.symbol ≢ s.last_top_symbol)
        × ((announce s top).0.last_top_symbol ≡ call.symbol)
        × ((announce s top).0.returns_30 ≡ s.returns_30)
  unfolding announce
  announced s none call h = absurd (ground arith)
  announced s (some top) call h = ground (arith, eq_iff top.symbol s.last_top_symbol)

  announced_top :
      (laws : IsFloat W) (s : SymbolScanner W) (call : SymbolPerformance W)
      → let (s', said) = announce s (top_from s.min_return_threshold none s.returns_30) in
        IsNamed s'.returns_30
        → said ≡ some call
        → HoldsTop s.min_return_threshold call s'.returns_30
          × Covers s.min_return_threshold (some call) s'.returns_30
          × (s.has_handler ≡ true)
          × (call.symbol ≢ s.last_top_symbol)
          × (s'.last_top_symbol ≡ call.symbol)
  announced_top laws s call named h =
      let top = top_from s.min_return_threshold none s.returns_30 in
      let (found, handler, apart, last, kept) = announced s top call h in
      let fine : IsNamed s.returns_30 = rw (← kept) named in
      let covers : Covers s.min_return_threshold (some call) s.returns_30 =
        rw (← found) (top_from-Covers laws s.min_return_threshold none s.returns_30 fine tt) in
      rw kept (held s.min_return_threshold s.returns_30 call found, covers, handler, apart, last)

  -- A call of the handler names a symbol that is in the new returns over 30 candles, above the threshold and not
  -- below any other return there, and that differs from the last one; it is remembered as the last. The names
  -- are not empty and the returns are numbers.
  pub on_market_event_announces :
      (laws : IsFloat W) (s : SymbolScanner W) (store : MarketDataStore W) (event : MarketEvent W)
      (call : SymbolPerformance W)
      → IsNamed (on_market_event s store event).0.returns_30
      → (on_market_event s store event).1 ≡ some call
      → HoldsTop s.min_return_threshold call (on_market_event s store event).0.returns_30
        × Covers s.min_return_threshold (some call) (on_market_event s store event).0.returns_30
        × (s.has_handler ≡ true)
        × (call.symbol ≢ s.last_top_symbol)
        × ((on_market_event s store event).0.last_top_symbol ≡ call.symbol)
  unfolding on_market_event
  on_market_event_announces laws s store event call =
      let Fine : SymbolScanner W × Option (SymbolPerformance W) → Type 0 = λ o.
        IsNamed o.0.returns_30
        → o.1 ≡ some call
        → HoldsTop s.min_return_threshold call o.0.returns_30
          × Covers s.min_return_threshold (some call) o.0.returns_30
          × (s.has_handler ≡ true)
          × (call.symbol ≢ s.last_top_symbol)
          × (o.0.last_top_symbol ≡ call.symbol) in
      let updated : SymbolScanner W = record s {
        returns_30 = update_cache store event 30 s.returns_30;
        returns_60 = update_cache store event 60 s.returns_60;
      } in
      if-elim Fine (str_eq event.symbol "" || not event.closed) (λ _ _ h. absurd (ground arith))
        (λ _ named h. announced_top laws updated call named h)
