-- ===== src/Market/Store/Readers.antt =====
-- What the readers of one ring return, against the list of its candles.
use native.Mathlib.Nat.{mod-lt, mod-eq_of_lt}
use mathlib.Core.Path.{ap₂}
use native.Mathlib.Decide.{dec_lt}
use sentum.Prelude.{
  ℕ, zero, suc, ◌+◌, ◌-◌, ◌%◌, ◌≤◌, ◌<◌, min, ◌≡◌, refl, sym, ap, ◌∙◌, Option, none, some, List, [],
  ◌∷◌, arith, false, if◌then◌else◌, ◌==◌, ltb, lt→ltb, get_or, drop,
}
use sentum.Circular.{window, window_mod}
use sentum.Float.{Double, ◌⊖◌, ◌⊘◌, le, nought}
use sentum.Market.Types.{Kline}
use sentum.Market.Store.Buffer.{
  RingBuffer, blank, at, copy_from, latest_buffer, cumulative_return_buffer,
}
use sentum.Market.Store.Latest.{IsValid, contents}

module _ {W : Type 0} ⦃d : Double W⦄ where
  copy_from-eq-window :
      (b : RingBuffer W) (start i n : ℕ)
      → copy_from b start i n ≡ window blank b.entries b.capacity (start + i) n
  unfolding copy_from
  copy_from-eq-window b start i zero = refl
  copy_from-eq-window b start i (suc n) =
      ap (λ t. at b ((start + i) % b.capacity) ∷ t)
        (copy_from-eq-window b start (i + 1) n
          ∙ ap (λ s. window blank b.entries b.capacity s n) (omega arith))

  drop-window :
      (buf : List (Kline W)) (c s n m : ℕ)
      → m ≤ n
      → drop m (window blank buf c s n) ≡ window blank buf c (s + m) (n - m)
  drop-window buf c s n zero h = ap₂ (window blank buf c) (omega arith) (omega arith)
  drop-window buf c s zero (suc m) h = elim h [ ]
  drop-window buf c s (suc n) (suc m) h =
      drop-window buf c (s + 1) n m (omega arith)
      ∙ ap₂ (window blank buf c) (omega arith) (omega arith)

  abbrev start_of : RingBuffer W → ℕ → ℕ
  start_of b limit = b.head + b.capacity - min limit b.size

  latest_buffer-eq-window :
      (b : RingBuffer W) (limit : ℕ)
      → IsValid b
      → latest_buffer (some b) limit
        ≡ window blank b.entries b.capacity (start_of b limit) (min limit b.size)
  unfolding latest_buffer
  latest_buffer-eq-window b limit v = elim (dec_lt 0 limit) [
    | yes p ↦ rw (asked p) copied
    | no p ↦ let none_asked : limit ≡ 0 = omega arith in rw (none_asked, zero_min) refl
  ]
    where
      zero_min : min 0 b.size ≡ 0
      zero_min = omega arith

      asked : 0 < limit → (limit == 0) ≡ false
      asked p = ground arith

      copied :
          copy_from b (start_of b limit % b.capacity) 0 (min limit b.size)
          ≡ window blank b.entries b.capacity (start_of b limit) (min limit b.size)
      copied =
          copy_from-eq-window b (start_of b limit % b.capacity) 0 (min limit b.size)
          ∙ window_mod blank b.entries b.capacity (start_of b limit % b.capacity + 0)
              (start_of b limit) (min limit b.size)
              (ap (λ i. i % b.capacity) (omega arith)
                ∙ mod-eq_of_lt (mod-lt (start_of b limit) v.positive))

  -- `latest` returns the newest candles, as many as asked for if there are so many, oldest first.
  pub latest_buffer_newest :
      (b : RingBuffer W) (limit : ℕ)
      → IsValid b
      → latest_buffer (some b) limit ≡ drop (b.size - limit) (contents b)
  latest_buffer_newest b limit v =
      latest_buffer-eq-window b limit v
      ∙ sym (
          drop-window b.entries b.capacity (b.head + b.capacity - b.size) b.size (b.size - limit)
            (omega arith)
          ∙ ap₂ (window blank b.entries b.capacity) (omega (arith, v.size_in)) (omega arith))

  -- The return over a list of candles, oldest first: none for fewer than two, or where the first close
  -- is not positive.
  abbrev pub last_close : Kline W → List (Kline W) → W
  last_close x [] = x.close
  last_close x (y ∷ r) = last_close y r

  abbrev pub return_over : List (Kline W) → Option W
  return_over [] = none
  return_over (x ∷ []) = none
  return_over (x ∷ y ∷ r) =
      if le x.close nought then none else some ((last_close y r ⊖ x.close) ⊘ x.close)

  last_close-window :
      (buf : List (Kline W)) (c s n : ℕ)
      → last_close (get_or buf (s % c) blank) (window blank buf c (s + 1) n)
        ≡ (get_or buf ((s + n) % c) blank).close
  last_close-window buf c s zero = ap (λ i. (get_or buf (i % c) blank).close) (omega arith)
  last_close-window buf c s (suc n) =
      last_close-window buf c (s + 1) n ∙ ap (λ i. (get_or buf (i % c) blank).close) (omega arith)

  return_over-window :
      (buf : List (Kline W)) (c s n : ℕ)
      → return_over (window blank buf c s n) ≡ (
          if ltb n 2
          then none
          else (let first = (get_or buf (s % c) blank).close in
              if le first nought
              then none
              else some (((get_or buf ((s + (n - 1)) % c) blank).close ⊖ first) ⊘ first)))
  return_over-window buf c s zero = refl
  return_over-window buf c s (suc zero) = refl
  return_over-window buf c s (suc (suc n)) =
      let many : ltb (suc (suc n)) 2 ≡ false = ground arith in
      rw (many, last_close-window buf c (s + 1) n)
        (ap
          (λ i.
            if le (get_or buf (s % c) blank).close nought
            then none
            else some (
                ((get_or buf (i % c) blank).close ⊖ (get_or buf (s % c) blank).close)
                ⊘ (get_or buf (s % c) blank).close))
          (omega arith))

  -- `cumulative_return` is the return over the candles that `latest` shows for the same count.
  pub cumulative_return_over_latest :
      (b : RingBuffer W) (lookback : ℕ)
      → IsValid b
      → cumulative_return_buffer (some b) lookback ≡ return_over (latest_buffer (some b) lookback)
  unfolding cumulative_return_buffer
  cumulative_return_over_latest b lookback v =
      rw
        (
          latest_buffer-eq-window b lookback v,
          return_over-window b.entries b.capacity (start_of b lookback) (min lookback b.size),
        )
        (elim (dec_lt (min lookback b.size) 2) [
          | yes few ↦ rw (lt→ltb _ _ few) (ground arith)
          | no many ↦
              rw (not_ltb _ _ many, not_ltb lookback 2 (omega arith))
                (ap
                  (λ i.
                    if le first nought
                    then none
                    else some (((get_or b.entries (i % b.capacity) blank).close ⊖ first) ⊘ first))
                  (omega (arith, v.size_in)))
        ])
    where
      not_ltb : (n m : ℕ) → ¬ (n < m) → ltb n m ≡ false
      not_ltb n m h = ground arith

      first : W
      first = (at b (start_of b lookback % b.capacity)).close
