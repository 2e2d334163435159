-- ===== src/Scanner/Ranking.antt =====
-- What `fetch_top_performers` returns.
use sentum.Prelude.{
  ℕ, ◌≡◌, refl, true, List, [], ◌∷◌, ◌++◌, if◌then◌else◌, min, ltb, leb, length, take, drop, map,
  String, filter, take-append-drop, length-take, suc, arith, if-elim,
}
use mathlib.Core.List.{Perm, append-nil}
use mathlib.Core.List.Perm
use sentum.Float.{Double, IsFloat, le, gt}
use sentum.Float.Order.{le_of_lt, le_of_not_lt}
use sentum.Prelude.Dict.{Dict}
use sentum.Scanner.{SymbolPerformance, SymbolScanner, above, rank_in, rank, fetch_top_performers}

module _ {W : Type 0} ⦃d : Double W⦄ where
  rank_in-Perm :
      (p : SymbolPerformance W) (ps : List (SymbolPerformance W)) → Perm (rank_in p ps) (p ∷ ps)
  unfolding rank_in
  rank_in-Perm p [] = Perm.refl (p ∷ [])
  rank_in-Perm p (q ∷ ps) =
      if-elim (λ ranked. Perm ranked (p ∷ q ∷ ps)) (gt q.cum_return p.cum_return)
        (λ _. Perm.trans (Perm.cons q (rank_in-Perm p ps)) (Perm.swap p q ps))
        (λ _. Perm.refl (p ∷ q ∷ ps))

  length-rank_in :
      (p : SymbolPerformance W) (ps : List (SymbolPerformance W))
      → length (rank_in p ps) ≡ suc (length ps)
  unfolding rank_in
  length-rank_in p [] = refl
  length-rank_in p (q ∷ ps) = ground (arith, length-rank_in p ps)

  length-rank : (ps : List (SymbolPerformance W)) → length (rank ps) ≡ length ps
  unfolding rank
  length-rank [] = refl
  length-rank (p ∷ ps) = omega (arith, length-rank_in p (rank ps), length-rank ps)

  rank-Perm : (ps : List (SymbolPerformance W)) → Perm (rank ps) ps
  unfolding rank
  rank-Perm [] = Perm.refl []
  rank-Perm (p ∷ ps) = Perm.trans (rank_in-Perm p (rank ps)) (Perm.cons p (rank-Perm ps))

  -- Each value is above the threshold.
  abbrev pub AllAbove : W → List (SymbolPerformance W) → Type 0
  AllAbove threshold [] = Unit
  AllAbove threshold (p ∷ ps) = (gt p.cum_return threshold ≡ true) × AllAbove threshold ps

  -- The returns fall from one to the next.
  abbrev pub StartsBelow : W → List (SymbolPerformance W) → Type 0
  StartsBelow bound [] = Unit
  StartsBelow bound (p ∷ ps) = le p.cum_return bound ≡ true

  abbrev pub IsRanked : List (SymbolPerformance W) → Type 0
  IsRanked [] = Unit
  IsRanked (p ∷ ps) = StartsBelow p.cum_return ps × IsRanked ps

  above-AllAbove : (threshold : W) (cache : Dict W) → AllAbove threshold (above threshold cache)
  unfolding above
  above-AllAbove threshold [] = tt
  above-AllAbove threshold ((symbol, value) ∷ cache) =
      if-elim (AllAbove threshold) (gt value threshold) (λ h. (h, above-AllAbove threshold cache))
        (λ _. above-AllAbove threshold cache)

  rank_in-AllAbove :
      (threshold : W) (p : SymbolPerformance W) (ps : List (SymbolPerformance W))
      → gt p.cum_return threshold ≡ true
      → AllAbove threshold ps
      → AllAbove threshold (rank_in p ps)
  unfolding rank_in
  rank_in-AllAbove threshold p [] h all = (h, tt)
  rank_in-AllAbove threshold p (q ∷ ps) h all =
      if-elim (AllAbove threshold) (gt q.cum_return p.cum_return)
        (λ _. (all.0, rank_in-AllAbove threshold p ps h all.1)) (λ _. (h, all))

  rank-AllAbove :
      (threshold : W) (ps : List (SymbolPerformance W))
      → AllAbove threshold ps
      → AllAbove threshold (rank ps)
  unfolding rank
  rank-AllAbove threshold [] all = tt
  rank-AllAbove threshold (p ∷ ps) all =
      rank_in-AllAbove threshold p (rank ps) all.0 (rank-AllAbove threshold ps all.1)

  module _ (laws : IsFloat W) (threshold : W) where
    rank_in-StartsBelow :
        (bound : W) (p : SymbolPerformance W) (ps : List (SymbolPerformance W))
        → le p.cum_return bound ≡ true
        → StartsBelow bound ps
        → StartsBelow bound (rank_in p ps)
    unfolding rank_in
    rank_in-StartsBelow bound p [] h s = h
    rank_in-StartsBelow bound p (q ∷ ps) h s =
        if-elim (StartsBelow bound) (gt q.cum_return p.cum_return) (λ _. s) (λ _. h)

    rank_in-IsRanked :
        (p : SymbolPerformance W) (ps : List (SymbolPerformance W))
        → gt p.cum_return threshold ≡ true
        → AllAbove threshold ps
        → IsRanked ps
        → IsRanked (rank_in p ps)
    unfolding rank_in
    rank_in-IsRanked p [] h all s = (tt, tt)
    rank_in-IsRanked p (q ∷ ps) h all s =
        if-elim IsRanked (gt q.cum_return p.cum_return)
          (λ more. (
            rank_in-StartsBelow q.cum_return p ps (le_of_lt laws _ _ more) s.0,
            rank_in-IsRanked p ps h all.1 s.1,
          ))
          (λ less. (
            le_of_not_lt laws p.cum_return q.cum_return
                (laws.number_of_lt threshold p.cum_return h).1
                (laws.number_of_lt threshold q.cum_return all.0).1 less,
            s,
          ))

    rank-IsRanked : (ps : List (SymbolPerformance W)) → AllAbove threshold ps → IsRanked (rank ps)
    unfolding rank
    rank-IsRanked [] all = tt
    rank-IsRanked (p ∷ ps) all =
        rank_in-IsRanked p (rank ps) all.0 (rank-AllAbove threshold ps all.1)
          (rank-IsRanked ps all.1)

  abbrev pub entry_of : String × W → SymbolPerformance W
  entry_of (symbol, value) = record { symbol = symbol; cum_return = value }

  -- The returns above the threshold, over 30 or over 60 candles.
  abbrev pub looked_at : SymbolScanner W → ℕ → List (SymbolPerformance W)
  looked_at s lookback = map entry_of (
      filter (λ (entry : String × W). d.lt s.min_return_threshold entry.1)
        (if leb lookback 30 then s.returns_30 else s.returns_60))

  above_lem :
      (threshold : W) (cache : Dict W)
      → above threshold cache
        ≡ map entry_of (filter (λ (entry : String × W). d.lt threshold entry.1) cache)
  unfolding above
  above_lem threshold [] = refl
  above_lem threshold ((symbol, value) ∷ cache) = ground (arith, above_lem threshold cache)

  -- The first values of a ranking of all of them.
  abbrev pub Leads : List (SymbolPerformance W) → ℕ → List (SymbolPerformance W) → Type 0
  Leads all wanted result =
      (rest : List (SymbolPerformance W)) × Perm (result ++ rest) all
      × IsRanked (result ++ rest)
      × (length result ≡ min wanted (length all))

  module _ (laws : IsFloat W) where
    leads :
        (threshold : W) (all : List (SymbolPerformance W)) (wanted : ℕ)
        → AllAbove threshold all
        → Leads all wanted (if ltb wanted (length all) then take wanted (rank all) else rank all)
    leads threshold all wanted high =
        if-elim (Leads all wanted) (ltb wanted (length all))
          (λ fewer. (
            drop wanted (rank all),
            rw (take-append-drop wanted (rank all)) (rank-Perm all),
            rw (take-append-drop wanted (rank all)) (rank-IsRanked laws threshold all high),
            omega (arith, length-take wanted (rank all), length-rank all),
          ))
          (λ enough. (
            [],
            rw (append-nil (rank all)) (rank-Perm all),
            rw (append-nil (rank all)) (rank-IsRanked laws threshold all high),
            ground (arith, length-rank all),
          ))

    -- The result lists symbols whose return exceeds the threshold, as many as asked for if there are so many and
    -- all of them if no positive number is asked for, with falling returns, and with no return below that of a
    -- symbol left out.
    pub fetch_top_performers-Leads :
        (s : SymbolScanner W) (lookback max_symbols : ℕ)
        → Leads
            (looked_at s lookback)
            (if ltb 0 max_symbols then max_symbols else length (looked_at s lookback))
            (fetch_top_performers s lookback max_symbols)
    unfolding fetch_top_performers
    fetch_top_performers-Leads s lookback max_symbols =
        rw
          (← above_lem s.min_return_threshold
            (if leb lookback 30 then s.returns_30 else s.returns_60))
          (leads s.min_return_threshold _ _ (above-AllAbove s.min_return_threshold _))
