-- ===== src/Base/Dict.antt =====
-- A `HashMap` as an association list.
pub mod Laws
use lakesis.Base.{ℕ, ◌≡◌, refl, Bool, true, false, List, [], ◌∷◌, Option, none, some, if◌then◌else◌}

module _ {ℓ κ} {K : Type ℓ} {V : Type κ} (eq : K → K → Bool) where
  -- `map.get(&k)`
  unfoldable pub lookup : K → List (K × V) → Option V
  lookup k [] = none
  lookup k ((j, v) ∷ entries) = if eq j k then some v else lookup k entries

  -- `map.remove(&k)`
  unfoldable pub remove : K → List (K × V) → List (K × V)
  remove k [] = []
  remove k ((j, v) ∷ entries) =
      let kept = remove k entries in if eq j k then kept else (j, v) ∷ kept

  -- `map.insert(k, v)`: the value replaces an older one.
  unfoldable pub insert : K → V → List (K × V) → List (K × V)
  insert k new [] = (k, new) ∷ []
  insert k new ((j, old) ∷ entries) =
      if eq j k then (k, new) ∷ entries else (j, old) ∷ insert k new entries
