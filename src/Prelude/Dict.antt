-- ===== src/Prelude/Dict.antt =====
-- A map keyed by text as an association list: `std::unordered_map<std::string, V>`. A walk over the
-- map visits the entries in the order of the list; the code leaves that order open.
use Prim.Native.String.{String}
use mathlib.Core.Path.{◌≡◌, refl}
use mathlib.Core.Logic.{◌≢◌}
use mathlib.Core.Bool.{Bool}
use mathlib.Core.Option.{Option, none, some}
use mathlib.Core.List.{List, [], ◌∷◌}
use native.Mathlib.Omega.{arith}
use text.Mathlib.Text.{◌==◌}
use text.Mathlib.TextEquality.{eq_iff}
use sentum.Prelude.Tests.{if◌then◌else◌}

-- `a == b` on texts.
abbrev pub str_eq : String → String → Bool
str_eq a b = a == b

abbrev pub Dict {ℓ} : Type ℓ → Type ℓ
Dict V = List (String × V)

module _ {ℓ} {V : Type ℓ} where
  -- `m.erase(k)`.
  unfoldable pub erase : String → Dict V → Dict V
  erase gone [] = []
  erase gone ((name, value) ∷ rest) =
      let kept = erase gone rest in if str_eq name gone then kept else (name, value) ∷ kept

  -- `find`, and the value there.
  unfoldable pub lookup : String → Dict V → Option V
  lookup wanted [] = none
  lookup wanted ((name, value) ∷ rest) =
      let deeper = lookup wanted rest in if str_eq name wanted then some value else deeper

  -- `m[k] = v`, in place where the key is there.
  unfoldable pub insert : String → V → Dict V → Dict V
  insert key new [] = (key, new) ∷ []
  insert key new ((name, old) ∷ rest) =
      let changed = insert key new rest in
      if str_eq name key then (key, new) ∷ rest else (name, old) ∷ changed

  pub lookup-erase :
      (gone wanted : String) (entries : Dict V)
      → lookup wanted (erase gone entries)
        ≡ (if str_eq gone wanted then none else lookup wanted entries)
  unfolding erase lookup
  lookup-erase gone wanted [] = ground arith
  lookup-erase gone wanted ((name, value) ∷ rest) =
      let inner = lookup-erase gone wanted rest in
      ground (arith, inner, eq_iff name gone, eq_iff name wanted, eq_iff gone wanted)

  pub lookup-insert :
      (key wanted : String) (new : V) (entries : Dict V)
      → lookup wanted (insert key new entries)
        ≡ (if str_eq key wanted then some new else lookup wanted entries)
  unfolding insert lookup
  lookup-insert key wanted new [] = refl
  lookup-insert key wanted new ((name, old) ∷ rest) =
      let inner = lookup-insert key wanted new rest in
      ground (arith, inner, eq_iff name key, eq_iff name wanted, eq_iff key wanted)

  pub lookup-insert_self : (k : String) (v : V) (m : Dict V) → lookup k (insert k v m) ≡ some v
  lookup-insert_self k v m = rw (lookup-insert k k v m, (eq_iff k k).1 refl)

  pub lookup-insert_ne :
      (k j : String) (v : V) (m : Dict V) → k ≢ j → lookup j (insert k v m) ≡ lookup j m
  lookup-insert_ne k j v m h = ground (arith, lookup-insert k j v m, eq_iff k j)
