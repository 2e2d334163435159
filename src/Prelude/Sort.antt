-- ===== src/Prelude/Sort.antt =====
-- A stable sort by a numeric key. `at_key` shows the values with one key in their order, so equal views
-- at every key mean the same values with the order of equals kept.
use sentum.Prelude.{ℕ, ◌≤◌, ◌≡◌, refl, ap, ◌∙◌, List, [], ◌∷◌, if◌then◌else◌, ◌==◌, ltb, arith}

module _ {ℓ} {A : Type ℓ} (key : A → ℕ) where
  -- Before the first value whose key is not smaller.
  unfoldable pub place : A → List A → List A
  place x [] = x ∷ []
  place x (y ∷ ys) = let later = place x ys in if ltb (key y) (key x) then y ∷ later else x ∷ y ∷ ys

  unfoldable pub stable_sort : List A → List A
  stable_sort [] = []
  stable_sort (x ∷ xs) = place x (stable_sort xs)

  abbrev pub at_key : ℕ → List A → List A
  at_key k [] = []
  at_key k (x ∷ xs) = let rest = at_key k xs in if key x == k then x ∷ rest else rest

  abbrev pub StartsFrom : ℕ → List A → Type 0
  StartsFrom k [] = Unit
  StartsFrom k (x ∷ xs) = k ≤ key x

  abbrev pub IsSorted : List A → Type 0
  IsSorted [] = Unit
  IsSorted (x ∷ xs) = StartsFrom (key x) xs × IsSorted xs

  place-StartsFrom :
      (k : ℕ) (x : A) (ys : List A) → k ≤ key x → StartsFrom k ys → StartsFrom k (place x ys)
  unfolding place
  place-StartsFrom k x [] h s = h
  place-StartsFrom k x (y ∷ ys) h s = ground arith

  place-IsSorted : (x : A) (ys : List A) → IsSorted ys → IsSorted (place x ys)
  unfolding place
  place-IsSorted x [] s = (tt, tt)
  place-IsSorted x (y ∷ ys) s =
      let rest = place-IsSorted x ys s.1 in ground (arith, rest, place-StartsFrom (key y) x ys)

  pub stable_sort-IsSorted : (xs : List A) → IsSorted (stable_sort xs)
  unfolding stable_sort
  stable_sort-IsSorted [] = tt
  stable_sort-IsSorted (x ∷ xs) = place-IsSorted x (stable_sort xs) (stable_sort-IsSorted xs)

  at_key-place : (k : ℕ) (x : A) (ys : List A) → at_key k (place x ys) ≡ at_key k (x ∷ ys)
  unfolding place
  at_key-place k x [] = refl
  at_key-place k x (y ∷ ys) = ground (arith, at_key-place k x ys)

  pub at_key-stable_sort : (k : ℕ) (xs : List A) → at_key k (stable_sort xs) ≡ at_key k xs
  unfolding stable_sort
  at_key-stable_sort k [] = refl
  at_key-stable_sort k (x ∷ xs) =
      at_key-place k x (stable_sort xs)
      ∙ ap (λ rest. if key x == k then x ∷ rest else rest) (at_key-stable_sort k xs)
