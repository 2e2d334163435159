-- ===== src/Prelude/Split.antt =====
-- Texts as lists of bytes, split at a separator as repeated calls of `std::getline` do.
use mathlib.Core.List.{append-nil, append_assoc}
use sentum.Prelude.{
  ℕ, ◌≡◌, refl, sym, ap, ◌∙◌, Bool, true, false, not, ◌&&◌, List, [], ◌∷◌, ◌++◌, if◌then◌else◌,
  ◌==◌, arith,
}

abbrev pub is_blank : List ℕ → Bool
is_blank [] = true
is_blank (b ∷ line) = false

module _ (sep : ℕ) where
  -- A field that is empty at the end of the text is none.
  unfoldable pub split_from : List ℕ → List ℕ → List (List ℕ)
  split_from [] [] = []
  split_from (b ∷ field) [] = (b ∷ field) ∷ []
  split_from field (c ∷ line) =
      let next = split_from [] line in
      let longer = split_from (field ++ (c ∷ [])) line in if c == sep then field ∷ next else longer

  abbrev pub avoids : List ℕ → Bool
  avoids [] = true
  avoids (b ∷ field) = not (b == sep) && avoids field

  -- The text of the given fields.
  abbrev pub joined : List (List ℕ) → List ℕ
  joined [] = []
  joined (field ∷ []) = field
  joined (field ∷ next ∷ fields) = field ++ (sep ∷ joined (next ∷ fields))

  -- No field holds a separator, and the last one is not empty.
  abbrev pub well_separated : List (List ℕ) → Bool
  well_separated [] = true
  well_separated (field ∷ []) = avoids field && not (is_blank field)
  well_separated (field ∷ next ∷ fields) = avoids field && well_separated (next ∷ fields)

  taken :
      (start field rest : List ℕ)
      → avoids field ≡ true
      → split_from start (field ++ rest) ≡ split_from (start ++ field) rest
  unfolding split_from
  taken start [] rest h = ap (λ s. split_from s rest) (sym (append-nil start))
  taken start (b ∷ field) rest h =
      let apart : (b == sep) ≡ false = ground arith in
      let clean : avoids field ≡ true = ground arith in
      rw apart (
        taken (start ++ (b ∷ [])) field rest clean
        ∙ ap (λ s. split_from s rest) (append_assoc start (b ∷ []) field))

  one_field :
      (field : List ℕ) → well_separated (field ∷ []) ≡ true → split_from [] field ≡ field ∷ []
  unfolding split_from
  one_field [] h = absurd (ground arith)
  one_field (b ∷ field) h =
      let clean : avoids (b ∷ field) ≡ true = ground arith in
      ap (split_from []) (sym (append-nil (b ∷ field))) ∙ taken [] (b ∷ field) [] clean

  -- Splitting gives back the fields that were joined.
  pub split_from-joined :
      (fields : List (List ℕ))
      → well_separated fields ≡ true
      → split_from [] (joined fields) ≡ fields
  unfolding split_from
  split_from-joined [] h = refl
  split_from-joined (field ∷ []) h = one_field field h
  split_from-joined (field ∷ next ∷ fields) h =
      let clean : avoids field ≡ true = ground arith in
      taken [] field (sep ∷ joined (next ∷ fields)) clean
      ∙ split_next field (joined (next ∷ fields))
      ∙ ap (λ rest. field ∷ rest) (split_from-joined (next ∷ fields) (ground arith))
    where
      split_next :
          (field rest : List ℕ) → split_from field (sep ∷ rest) ≡ field ∷ split_from [] rest
      split_next [] rest = ground arith
      split_next (b ∷ field) rest = ground arith
