-- ===== src/Circular.antt =====
-- Circular buffers: what `n` cells of an array hold from a position on, going round at the capacity.
-- A position need not be reduced; the code reduces it by `%`.
use mathlib.Core.Path.{ap₂}
use native.Mathlib.Nat.{mod-lt, mod-add-mod, mod-eq_of_lt, mod-eq-sub-mod}
use native.Mathlib.Decide.{dec_lt}
use sentum.Prelude.{
  ℕ, zero, suc, ◌+◌, ◌-◌, ◌%◌, ◌≤◌, ◌<◌, ◌≡◌, refl, sym, ap, ◌∙◌, ◌≢◌, List, [], ◌∷◌, ◌++◌, arith,
  length, get_or, set,
}

-- Two positions less than a capacity apart are different cells.
pub mod-ne : (c a k : ℕ) → 0 < k → k < c → a % c ≢ (a + k) % c
mod-ne c a k h hk =
    let small : a % c < c = mod-lt a (omega arith) in
    let split : (a % c + k) % c ≡ (a + k) % c = mod-add-mod a c k in
    elim (dec_lt (a % c + k) c) [
      | yes p ↦ omega (arith, mod-eq_of_lt p)
      | no p ↦ omega (
        arith,
        mod-eq-sub-mod {n = a % c + k} {m = c} (omega arith),
        mod-eq_of_lt {n = a % c + k - c} {m = c} (omega arith),
      )
    ]

module _ {ℓ} {A : Type ℓ} where
  pub length-set : (xs : List A) (i : ℕ) (v : A) → length (set xs i v) ≡ length xs
  length-set [] i v = refl
  length-set (x ∷ xs) zero v = refl
  length-set (x ∷ xs) (suc i) v = ap suc (length-set xs i v)

  pub get_or-set_self :
      (xs : List A) (i : ℕ) (v d : A) → i < length xs → get_or (set xs i v) i d ≡ v
  get_or-set_self [] i v d h = absurd (omega arith)
  get_or-set_self (x ∷ xs) zero v d h = refl
  get_or-set_self (x ∷ xs) (suc i) v d h = get_or-set_self xs i v d (omega arith)

  pub get_or-set_ne :
      (xs : List A) (i j : ℕ) (v d : A) → i ≢ j → get_or (set xs i v) j d ≡ get_or xs j d
  get_or-set_ne [] i j v d h = refl
  get_or-set_ne (x ∷ xs) zero zero v d h = absurd (h refl)
  get_or-set_ne (x ∷ xs) zero (suc j) v d h = refl
  get_or-set_ne (x ∷ xs) (suc i) zero v d h = refl
  get_or-set_ne (x ∷ xs) (suc i) (suc j) v d h = get_or-set_ne xs i j v d (λ e. h (ap suc e))

  module _ (d : A) (buf : List A) (cap : ℕ) where
    abbrev pub window : ℕ → ℕ → List A
    window start zero = []
    window start (suc n) = get_or buf (start % cap) d ∷ window (start + 1) n

    pub length-window : (start n : ℕ) → length (window start n) ≡ n
    length-window start zero = refl
    length-window start (suc n) = ap suc (length-window (start + 1) n)

    -- Only the reduced position matters.
    pub window_mod : (s t n : ℕ) → s % cap ≡ t % cap → window s n ≡ window t n
    window_mod s t zero e = refl
    window_mod s t (suc n) e =
        ap₂ ◌∷◌ (ap (λ i. get_or buf i d) e) (window_mod (s + 1) (t + 1) n (next s t e))
      where
        next : (a b : ℕ) → a % cap ≡ b % cap → (a + 1) % cap ≡ (b + 1) % cap
        next a b h = sym (mod-add-mod a cap 1) ∙ ap (λ k. (k + 1) % cap) h ∙ mod-add-mod b cap 1

    -- The last cell of a window.
    pub window_last :
        (start n : ℕ)
        → window start (suc n) ≡ window start n ++ (get_or buf ((start + n) % cap) d ∷ [])
    window_last start zero = ap (λ k. get_or buf (k % cap) d ∷ []) (omega arith)
    window_last start (suc n) = ap₂ ◌∷◌ refl (
        window_last (start + 1) n
        ∙ ap (λ k. window (start + 1) n ++ (get_or buf (k % cap) d ∷ [])) (omega arith))

  -- A write outside a window leaves it alone.
  pub window-set_outside :
      (d : A) (buf : List A) (cap start n i : ℕ) (v : A)
      → ((j : ℕ) → j < n → i ≢ (start + j) % cap)
      → window d (set buf i v) cap start n ≡ window d buf cap start n
  window-set_outside d buf cap start zero i v h = refl
  window-set_outside d buf cap start (suc n) i v h =
      ap₂ ◌∷◌ (get_or-set_ne buf i (start % cap) v d here)
        (window-set_outside d buf cap (start + 1) n i v there)
    where
      here : i ≢ start % cap
      here e = h 0 (omega arith) (e ∙ ap (λ k. k % cap) (omega arith))

      there : (j : ℕ) → j < n → i ≢ (start + 1 + j) % cap
      there j hj e = h (j + 1) (omega arith) (e ∙ ap (λ k. k % cap) (omega arith))

  -- A write just behind a window that leaves a cell free extends it.
  pub window-set_behind :
      (d : A) (buf : List A) (cap start n : ℕ) (v : A)
      → cap ≤ length buf
      → n < cap
      → window d (set buf ((start + n) % cap) v) cap start (suc n)
        ≡ window d buf cap start n ++ (v ∷ [])
  window-set_behind d buf cap start n v hb hn =
      window_last d (set buf at v) cap start n
      ∙ ap₂ ◌++◌ (window-set_outside d buf cap start n at v apart)
          (ap (λ x. x ∷ []) (get_or-set_self buf at v d (omega (arith, inside))))
    where
      at : ℕ
      at = (start + n) % cap

      inside : at < cap
      inside = mod-lt (start + n) (omega arith)

      apart : (j : ℕ) → j < n → at ≢ (start + j) % cap
      apart j hj e =
          mod-ne cap (start + j) (n - j) (omega arith) (omega arith)
            (sym e ∙ ap (λ k. k % cap) (omega arith))
