-- ===== src/Market/Spsc/Fifo.antt =====
-- The ring behaves as a bounded first-in first-out queue.
use native.Mathlib.Nat.{mod-lt, mod-add-mod, mod-eq_of_lt, mod-eq-sub-mod}
use native.Mathlib.Decide.{dec_lt}
use mathlib.Core.List.{tail}
use sentum.Prelude.{
  ℕ, suc, ◌+◌, ◌-◌, ◌%◌, ◌<◌, ◌≡◌, refl, sym, ap, ◌∙◌, ◌≢◌, Bool, true, false, Option, none, some,
  List, [], ◌∷◌, ◌++◌, map, arith, if◌then◌else◌, ◌==◌, ltb, lt→ltb, length, length-replicate,
  length-append, get_or, set,
}
use sentum.Circular.{mod-ne, length-set, window, window_mod, window-set_outside, window-set_behind}
use sentum.Market.Spsc.{
  Ring, increment, new_ring, try_push, try_pop, Popped, refused, moved, empty, size_approx,
}

-- A client's calls, and what each returns.
pub data Op {ℓ} (A : Type ℓ) : Type ℓ where
  push : A → Op A
  pop : Op A

pub data Reply {ℓ} (A : Type ℓ) : Type ℓ where
  pushed : Bool → Reply A
  popped : Popped A → Reply A

==_refl : (n : ℕ) → (n == n) ≡ true
==_refl n = ground arith

pub not_ltb : (n m : ℕ) → ¬ (n < m) → ltb n m ≡ false
not_ltb n m h = ground arith

==_ne : (n m : ℕ) → n ≢ m → (n == m) ≡ false
==_ne n m h = ground arith

module _ {ℓ} {A : Type ℓ} (cap : ℕ) where
  -- The ring holds exactly the values `q`, oldest first, from `tail` on.
  pub record Holds (r : Ring A) (q : List A) : Type ℓ where
    pub sized : length r.slots ≡ cap
    pub room : length q < cap
    pub tail_in : r.tail < cap
    pub head_at : r.head ≡ (r.tail + length q) % cap
    pub cells : window none r.slots cap r.tail (length q) ≡ map some q

  -- The specification: a queue of at most `cap - 1` values.
  abbrev pub spec : List A → List (Op A) → List (Reply A)
  spec q [] = []
  spec q (push x ∷ ops) =
      let free = ltb (length q + 1) cap in
      pushed free ∷ spec (if free then q ++ (x ∷ []) else q) ops
  spec [] (pop ∷ ops) = popped refused ∷ spec [] ops
  spec (x ∷ q) (pop ∷ ops) = popped (moved (some x)) ∷ spec q ops

  abbrev pub run : Ring A → List (Op A) → List (Reply A)
  run r [] = []
  run r (push x ∷ ops) = let (r', ok) = try_push cap r x in pushed ok ∷ run r' ops
  run r (pop ∷ ops) = let (r', out) = try_pop cap r in popped out ∷ run r' ops

  next-head :
      (r : Ring A) (q : List A) → Holds r q → increment cap r.head ≡ (r.tail + suc (length q)) % cap
  unfolding increment
  next-head r q h =
      ap (λ k. (k + 1) % cap) h.head_at
      ∙ mod-add-mod (r.tail + length q) cap 1
      ∙ ap (λ k. k % cap) (omega arith)

  -- The test of `try_push`: full means that one more value would use the last cell.
  full_test_free :
      (r : Ring A) (q : List A) → Holds r q → length q + 1 < cap → increment cap r.head ≢ r.tail
  full_test_free r q h free e =
      mod-ne cap r.tail (suc (length q)) (omega arith) (omega arith)
        (mod-eq_of_lt h.tail_in ∙ sym e ∙ next-head r q h)

  full_test_full :
      (r : Ring A) (q : List A) → Holds r q → length q + 1 ≡ cap → increment cap r.head ≡ r.tail
  full_test_full r q h full =
      let at = next-head r q h in
      let fits : r.tail < cap = h.tail_in in
      omega (
        arith,
        at,
        mod-eq-sub-mod {n = r.tail + suc (length q)} {m = cap} (omega arith),
        mod-eq_of_lt {n = r.tail + suc (length q) - cap} {m = cap} (omega arith),
      )

  map-some-append : (q : List A) (x : A) → map some (q ++ (x ∷ [])) ≡ map some q ++ (some x ∷ [])
  map-some-append [] x = refl
  map-some-append (y ∷ q) x = ap (λ t. some y ∷ t) (map-some-append q x)

  length_snoc : (q : List A) (x : A) → length (q ++ (x ∷ [])) ≡ suc (length q)
  length_snoc q x = omega (arith, length-append {ℓ} q (x ∷ []))

  pub push_free :
      (r : Ring A) (q : List A) (x : A)
      → Holds r q
      → length q + 1 < cap
      → let (r', ok) = try_push cap r x in (ok ≡ true) × Holds r' (q ++ (x ∷ []))
  unfolding try_push
  push_free r q x h free =
      let at : r.head ≡ (r.tail + length q) % cap = h.head_at in
      rw (==_ne _ _ (full_test_free r q h free)) (
        refl,
        record {
          sized = length-set r.slots r.head (some x) ∙ h.sized;
          room = omega (arith, length-append {ℓ} q (x ∷ []));
          tail_in = h.tail_in;
          head_at = next-head r q h ∙ ap (λ k. (r.tail + k) % cap) (sym (length_snoc q x));
          cells =
              ap (window none (set r.slots r.head (some x)) cap r.tail) (length_snoc q x)
              ∙ ap (λ i. window none (set r.slots i (some x)) cap r.tail (suc (length q))) at
              ∙ window-set_behind none r.slots cap r.tail (length q) (some x)
                  (omega (arith, h.sized)) h.room
              ∙ ap (λ t. t ++ (some x ∷ [])) h.cells
              ∙ sym (map-some-append q x);
        },
      )

  pub push_full :
      (r : Ring A) (q : List A) (x : A)
      → Holds r q
      → length q + 1 ≡ cap
      → try_push cap r x ≡ (r, false)
  unfolding try_push
  push_full r q x h full = rw (full_test_full r q h full, ==_refl r.tail)

  pub pop_empty : (r : Ring A) → Holds r [] → try_pop cap r ≡ (r, refused)
  unfolding try_pop
  pop_empty r h = rw (at_rest) refl
    where
      same : r.head ≡ r.tail
      same = h.head_at ∙ ap (λ k. k % cap) (omega arith) ∙ mod-eq_of_lt h.tail_in

      at_rest : (r.tail == r.head) ≡ true
      at_rest = rw same (==_refl r.tail)

  -- The test of `try_pop`: a ring that holds something is not taken for empty.
  taken : (r : Ring A) (q : List A) → Holds r q → 0 < length q → r.tail ≢ r.head
  taken r q h some_left e =
      mod-ne cap r.tail (length q) some_left h.room (mod-eq_of_lt h.tail_in ∙ e ∙ h.head_at)

  first_cell :
      (r : Ring A) (x : A) (q : List A) → Holds r (x ∷ q) → get_or r.slots r.tail none ≡ some x
  first_cell r x q h =
      ap (λ k. get_or r.slots k none) (sym (mod-eq_of_lt h.tail_in)) ∙ head_of (h.cells)
    where
      head_of : {a b : Option A} {s t : List (Option A)} → a ∷ s ≡ b ∷ t → a ≡ b
      head_of e = cc

  pub pop_some :
      (r : Ring A) (x : A) (q : List A)
      → Holds r (x ∷ q)
      → let (r', out) = try_pop cap r in (out ≡ moved (some x)) × Holds r' q
  unfolding try_pop
  pop_some r x q h = rw (==_ne _ _ (taken r (x ∷ q) h (omega arith))) (
    ap moved (first_cell r x q h),
    record {
      sized = length-set r.slots r.tail none ∙ h.sized;
      room = omega (arith, h.room);
      tail_in = mod-lt (r.tail + 1) (omega (arith, h.room));
      head_at = h.head_at ∙ shift;
      cells =
          window_mod none (set r.slots r.tail none) cap ((r.tail + 1) % cap) (r.tail + 1) (length q)
            (mod_mod (r.tail + 1))
          ∙ window-set_outside none r.slots cap (r.tail + 1) (length q) r.tail none apart
          ∙ ap tail h.cells;
    },
  )
    where
      mod_mod : (k : ℕ) → k % cap % cap ≡ k % cap
      mod_mod k = mod-eq_of_lt (mod-lt k (omega (arith, h.room)))

      shift : (r.tail + suc (length q)) % cap ≡ ((r.tail + 1) % cap + length q) % cap
      shift = ap (λ k. k % cap) (omega arith) ∙ sym (mod-add-mod (r.tail + 1) cap (length q))

      apart : (j : ℕ) → j < length q → r.tail ≢ (r.tail + 1 + j) % cap
      apart j hj e =
          mod-ne cap r.tail (suc j) (omega arith) (omega (arith, h.room))
            (mod-eq_of_lt h.tail_in ∙ e ∙ ap (λ k. k % cap) (omega arith))

  -- Whatever the calls, a ring that holds `q` answers as the bounded queue that starts with `q`.
  pub run_refines :
      (ops : List (Op A)) (r : Ring A) (q : List A) → Holds r q → run r ops ≡ spec q ops
  run_refines [] r q h = refl
  run_refines (push x ∷ ops) r q h = elim (dec_lt (length q + 1) cap) [
    | yes free ↦
        let (accepted, holds) = push_free r q x h free in
        rw (lt→ltb _ _ free, accepted) (ap (λ t. pushed true ∷ t) (run_refines ops _ _ holds))
    | no full ↦
        let same = push_full r q x h (omega (arith, h.room)) in
        rw (same, not_ltb _ _ full) (ap (λ t. pushed false ∷ t) (run_refines ops r q h))
  ]
  run_refines (pop ∷ ops) r [] h =
      rw (pop_empty r h) (ap (λ t. popped refused ∷ t) (run_refines ops r [] h))
  run_refines (pop ∷ ops) r (x ∷ q) h =
      let (out, holds) = pop_some r x q h in
      rw out (ap (λ t. popped (moved (some x)) ∷ t) (run_refines ops _ q holds))

  -- A fresh ring holds nothing.
  pub new_ring-Holds : 1 < cap → Holds (new_ring cap) []
  new_ring-Holds h = record {
    sized = length-replicate cap none;
    room = omega arith;
    tail_in = omega arith;
    head_at = sym (mod-eq_of_lt {n = 0} {m = cap} (omega arith));
    cells = refl;
  }

  -- While neither thread is inside a call, `size_approx` is exact and `empty` agrees with it.
  pub size_approx_exact :
      (r : Ring A) (q : List A)
      → Holds r q
      → (size_approx cap r ≡ length q) × (empty cap r ≡ (length q == 0))
  unfolding size_approx empty
  size_approx_exact r q h =
      let fits : r.tail < cap = h.tail_in in
      let few : length q < cap = h.room in
      elim (dec_lt (r.tail + length q) cap) [
        | yes p ↦
            let at : r.head ≡ r.tail + length q = h.head_at ∙ mod-eq_of_lt p in
            (ground arith, ground arith)
        | no p ↦
            let at : r.head ≡ r.tail + length q - cap =
              h.head_at
              ∙ mod-eq-sub-mod {n = r.tail + length q} {m = cap} (omega arith)
              ∙ mod-eq_of_lt {n = r.tail + length q - cap} {m = cap} (omega arith) in
            (ground arith, ground arith)
      ]
