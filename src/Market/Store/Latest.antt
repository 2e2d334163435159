-- ===== src/Market/Store/Latest.antt =====
-- One ring against the list of its candles, oldest first: what a write does to the list, and what the
-- readers see of it.
use native.Mathlib.Nat.{mod-lt, mod-eq_of_lt, mod-eq-sub-mod}
use native.Mathlib.Decide.{dec_lt}
use sentum.Prelude.{
  ℕ, zero, suc, ◌+◌, ◌-◌, ◌%◌, ◌≤◌, ◌<◌, ◌≡◌, refl, sym, ap, ◌∙◌, ◌⊎◌, inl, inr, true, false, List,
  [], ◌∷◌, ◌++◌, arith, if◌then◌else◌, ◌&&◌, ◌==◌, ltb, lt→ltb, Bool-cases, length, length-append,
  get_or, set, drop,
}
use sentum.Circular.{window, window_mod, window_last, length-window, length-set, window-set_behind}
use sentum.Float.{Double}
use sentum.Market.Types.{Kline}
use sentum.Market.Store.Buffer.{RingBuffer, blank, at, last_index, upsert_buffer}

zero-or-suc : (n : ℕ) → (n ≡ 0) ⊎ ((m : ℕ) × (n ≡ suc m))
zero-or-suc zero = inl refl
zero-or-suc (suc m) = inr (m, refl)

module _ {W : Type 0} ⦃d : Double W⦄ where
  pub record IsValid (b : RingBuffer W) : Type 0 where
    pub positive : 0 < b.capacity
    pub sized : length b.entries ≡ b.capacity
    pub head_in : b.head < b.capacity
    pub size_in : b.size ≤ b.capacity

  -- The candles that the ring holds, oldest first.
  abbrev pub contents : RingBuffer W → List (Kline W)
  contents b = window blank b.entries b.capacity (b.head + b.capacity - b.size) b.size

  -- The specification of a write: a candle with the time of the newest one replaces it, any other is
  -- appended, and what exceeds the capacity is dropped from the front.
  abbrev pub put : List (Kline W) → Kline W → List (Kline W)
  put [] k = k ∷ []
  put (x ∷ []) k = if x.timestamp == k.timestamp then k ∷ [] else x ∷ k ∷ []
  put (x ∷ y ∷ r) k = x ∷ put (y ∷ r) k

  abbrev pub trim : ℕ → List (Kline W) → List (Kline W)
  trim cap xs = drop (length xs - cap) xs

  pub put_snoc :
      (g : List (Kline W)) (l k : Kline W)
      → put (g ++ (l ∷ [])) k
        ≡ (if l.timestamp == k.timestamp then g ++ (k ∷ []) else (g ++ (l ∷ [])) ++ (k ∷ []))
  put_snoc [] l k = refl
  put_snoc (x ∷ []) l k = ground arith
  put_snoc (x ∷ y ∷ g) l k = rw (put_snoc (y ∷ g) l k) (ground arith)

  -- A write keeps a ring valid: its cells, its head and its size stay within the capacity.
  pub upsert_buffer-IsValid :
      (b : RingBuffer W) (k : Kline W) → IsValid b → IsValid (upsert_buffer b k)
  unfolding upsert_buffer
  upsert_buffer-IsValid b k v = ground (
    arith,
    length-set b.entries (last_index b) k,
    length-set b.entries b.head k,
    mod-lt (b.head + 1) v.positive,
  )

  -- Positions.
  module _ (b : RingBuffer W) (v : IsValid b) where
    open b use {entries, capacity, head, size}
    open v use {positive, sized, head_in, size_in}

    head_back : (k : ℕ) → k ≤ capacity → (head + capacity - k + k) % capacity ≡ head
    head_back k h =
        ap (λ i. i % capacity) (omega arith)
        ∙ mod-eq-sub-mod {n = head + capacity} {m = capacity} (omega arith)
        ∙ ap (λ i. i % capacity) (omega arith)
        ∙ mod-eq_of_lt head_in

    next_start :
        (k : ℕ)
        → k < capacity
        → ((head + 1) % capacity + capacity - (k + 1)) % capacity ≡ (head + capacity - k) % capacity
    next_start k h = elim (dec_lt (head + 1) capacity) [
      | yes p ↦
          ap (λ i. (i + capacity - (k + 1)) % capacity) (mod-eq_of_lt p)
          ∙ ap (λ i. i % capacity) (omega arith)
      | no p ↦
          let last_cell : head + 1 - capacity ≡ 0 = omega arith in
          let wraps : (head + 1) % capacity ≡ 0 =
            mod-eq-sub-mod {n = head + 1} {m = capacity} (omega arith)
            ∙ ap (λ i. i % capacity) last_cell
            ∙ mod-eq_of_lt positive in
          ap (λ i. (i + capacity - (k + 1)) % capacity) wraps
          ∙ sym (
              mod-eq-sub-mod {n = head + capacity - k} {m = capacity} (omega arith)
              ∙ ap (λ i. i % capacity) (omega arith))
    ]

    append_free :
        (k : Kline W)
        → size < capacity
        → window blank
            (set entries head k)
            capacity
            ((head + 1) % capacity + capacity - (size + 1))
            (suc size)
          ≡ contents b ++ (k ∷ [])
    append_free k h =
        window_mod blank (set entries head k) capacity
          ((head + 1) % capacity + capacity - (size + 1)) (head + capacity - size) (suc size)
          (next_start size h)
        ∙ ap (λ i. window blank (set entries i k) capacity (head + capacity - size) (suc size))
            (sym (head_back size size_in))
        ∙ window-set_behind blank entries capacity (head + capacity - size) size k (omega arith) h

    append_full :
        (k : Kline W) (m : ℕ)
        → capacity ≡ suc m
        → size ≡ capacity
        → window blank (set entries head k) capacity ((head + 1) % capacity + capacity - size) size
          ≡ drop 1 (contents b) ++ (k ∷ [])
    append_full k m few full =
        let count : size ≡ suc m = full ∙ few in
        ap (window blank (set entries head k) capacity ((head + 1) % capacity + capacity - size))
          count
        ∙ window_mod blank (set entries head k) capacity ((head + 1) % capacity + capacity - size)
            (head + 1) (suc m) turn
        ∙ ap (λ i. window blank (set entries i k) capacity (head + 1) (suc m)) (sym back)
        ∙ window-set_behind blank entries capacity (head + 1) m k (omega arith) (omega arith)
        ∙ ap (λ t. t ++ (k ∷ [])) (sym rest)
      where
        same : (head + 1) % capacity + capacity - size ≡ (head + 1) % capacity
        same = omega arith

        turn : ((head + 1) % capacity + capacity - size) % capacity ≡ (head + 1) % capacity
        turn = ap (λ i. i % capacity) same ∙ mod-eq_of_lt (mod-lt (head + 1) positive)

        back : (head + 1 + m) % capacity ≡ head
        back = ap (λ i. i % capacity) (omega arith) ∙ head_back capacity (omega arith)

        rest : drop 1 (contents b) ≡ window blank entries capacity (head + 1) m
        rest =
            ap (λ n. drop 1 (window blank entries capacity (head + capacity - size) n)) (full ∙ few)
            ∙ ap (λ i. window blank entries capacity i m) (omega arith)

    last_at : (n : ℕ) → size ≡ suc n → last_index b ≡ (head + capacity - size + n) % capacity
    last_at n e = ap (λ i. i % capacity) (omega arith)

    contents_last :
        (n : ℕ)
        → size ≡ suc n
        → contents b
          ≡ window blank entries capacity (head + capacity - size) n ++ (at b (last_index b) ∷ [])
    contents_last n e =
        ap (window blank entries capacity (head + capacity - size)) e
        ∙ window_last blank entries capacity (head + capacity - size) n
        ∙ ap
            (λ i.
              window blank entries capacity (head + capacity - size) n
              ++ (get_or entries i blank ∷ []))
            (sym (last_at n e))

    replace_last :
        (n : ℕ) (k : Kline W)
        → size ≡ suc n
        → window blank (set entries (last_index b) k) capacity (head + capacity - size) size
          ≡ window blank entries capacity (head + capacity - size) n ++ (k ∷ [])
    replace_last n k e =
        ap (window blank (set entries (last_index b) k) capacity (head + capacity - size)) e
        ∙ ap (λ i. window blank (set entries i k) capacity (head + capacity - size) (suc n))
            (last_at n e)
        ∙ window-set_behind blank entries capacity (head + capacity - size) n k (omega arith)
            (omega arith)

    pub length-contents : length (contents b) ≡ size
    length-contents = length-window blank entries capacity (head + capacity - size) size

  trim_short : (cap : ℕ) (xs : List (Kline W)) → length xs ≤ cap → trim cap xs ≡ xs
  trim_short c xs h =
      let none_over : length xs - c ≡ 0 = omega arith in ap (λ n. drop n xs) none_over

  drop_one : (xs ys : List (Kline W)) → 0 < length xs → drop 1 (xs ++ ys) ≡ drop 1 xs ++ ys
  drop_one [] ys h = elim h [ ]
  drop_one (x ∷ xs) ys h = refl

  -- A write appends to the contents, and drops the oldest candle of a full ring.
  append_lem :
      (b : RingBuffer W) (k : Kline W)
      → IsValid b
      → let size' = if ltb b.size b.capacity then b.size + 1 else b.size in
        window blank
          (set b.entries b.head k)
          b.capacity
          ((b.head + 1) % b.capacity + b.capacity - size')
          size'
        ≡ trim b.capacity (contents b ++ (k ∷ []))
  append_lem b k v = elim (dec_lt b.size b.capacity) [
    | yes p ↦
        let grown : b.size + 1 ≡ suc b.size = omega arith in
        rw (lt→ltb _ _ p) (
          ap
            (window blank (set b.entries b.head k) b.capacity
              ((b.head + 1) % b.capacity + b.capacity - (b.size + 1)))
            grown
          ∙ append_free b v k p
          ∙ sym (trim_short b.capacity _ (omega (arith, length_grown))))
    | no p ↦
        let full : b.size ≡ b.capacity = omega (arith, v.size_in) in
        let one_over : length (contents b ++ (k ∷ [])) - b.capacity ≡ 1 =
          omega (arith, length_grown) in
        let some_left : 0 < length (contents b) = omega (arith, length-contents b v, v.positive) in
        rw (not_ltb _ _ p) (
          append_full b v k (b.capacity - 1) (omega (arith, v.positive)) full
          ∙ sym (drop_one (contents b) (k ∷ []) some_left)
          ∙ ap (λ n. drop n (contents b ++ (k ∷ []))) (sym one_over))
  ]
    where
      length_grown : length (contents b ++ (k ∷ [])) ≡ b.size + 1
      length_grown = omega (arith, length-append {0} (contents b) (k ∷ []), length-contents b v)

      not_ltb : (n m : ℕ) → ¬ (n < m) → ltb n m ≡ false
      not_ltb n m h = ground arith

  -- A write to a valid ring does to the list of its candles what the specification says: a candle with the
  -- time of the newest one replaces it, any other is appended, and the oldest is dropped beyond the capacity.
  pub upsert_buffer_refines :
      (b : RingBuffer W) (k : Kline W)
      → IsValid b
      → contents (upsert_buffer b k) ≡ trim b.capacity (put (contents b) k)
  unfolding upsert_buffer
  upsert_buffer_refines b k v = elim (zero-or-suc b.size) [
    | inl e ↦
        let nothing : contents b ≡ [] =
          ap (window blank b.entries b.capacity (b.head + b.capacity - b.size)) e in
        rw (skip e) (
          append_lem b k v
          ∙ ap (λ t. trim b.capacity (t ++ (k ∷ []))) nothing
          ∙ ap (λ t. trim b.capacity (put t k)) (sym nothing))
    | inr (n, e) ↦ elim (Bool-cases ((at b (last_index b)).timestamp == k.timestamp)) [
      | inl same ↦ rw (take e same) (
          replace_last b v n k e
          ∙ sym (
              trim_short b.capacity _ (
                omega (
                  arith,
                  ap length (contents_last b v n e),
                  length-append {0}
                      (window blank b.entries b.capacity (b.head + b.capacity - b.size) n) (k ∷ []),
                  length-window blank b.entries b.capacity (b.head + b.capacity - b.size) n,
                  v.size_in,
                )))
          ∙ ap (trim b.capacity)
              (sym (ap (λ t. put t k) (contents_last b v n e) ∙ put_snoc _ _ k ∙ rw same refl)))
      | inr other ↦ rw (differs other) (
          append_lem b k v
          ∙ ap (trim b.capacity) (
              ap (λ t. t ++ (k ∷ [])) (contents_last b v n e)
              ∙ sym (ap (λ t. put t k) (contents_last b v n e) ∙ put_snoc _ _ k ∙ rw other refl)))
    ]
  ]
    where
      skip : b.size ≡ 0 → (ltb 0 b.size && ((at b (last_index b)).timestamp == k.timestamp)) ≡ false
      skip e = ground arith

      take :
          {n : ℕ}
          → b.size ≡ suc n
          → ((at b (last_index b)).timestamp == k.timestamp) ≡ true
          → (ltb 0 b.size && ((at b (last_index b)).timestamp == k.timestamp)) ≡ true
      take e h = ground arith

      differs :
          ((at b (last_index b)).timestamp == k.timestamp) ≡ false
          → (ltb 0 b.size && ((at b (last_index b)).timestamp == k.timestamp)) ≡ false
      differs h = ground arith
