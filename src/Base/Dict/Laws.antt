-- ===== src/Base/Dict/Laws.antt =====
-- Lookups after the operations of a dictionary.
use lakesis.Base.{◌≡◌, refl, ◌↔◌, Bool, true, List, [], ◌∷◌, none, some, arith, if◌then◌else◌}
use lakesis.Base.Dict.{lookup, insert, remove}

module _ {ℓ κ} {K : Type ℓ} {V : Type κ} (eq : K → K → Bool)
    (eq_iff : (a b : K) → (eq a b ≡ true) ↔ (a ≡ b)) where
  pub lookup-remove :
      (gone wanted : K) (entries : List (K × V))
      → lookup eq wanted (remove eq gone entries)
        ≡ (if eq gone wanted then none else lookup eq wanted entries)
  unfolding lookup remove
  lookup-remove gone wanted [] = ground arith
  lookup-remove gone wanted ((at, old) ∷ entries) = ground (
    arith,
    lookup-remove gone wanted entries,
    eq_iff at gone,
    eq_iff at wanted,
    eq_iff gone wanted,
  )

  pub lookup-insert :
      (added wanted : K) (new : V) (entries : List (K × V))
      → lookup eq wanted (insert eq added new entries)
        ≡ (if eq added wanted then some new else lookup eq wanted entries)
  unfolding lookup insert
  lookup-insert added wanted new [] = refl
  lookup-insert added wanted new ((at, old) ∷ entries) = ground (
    arith,
    lookup-insert added wanted new entries,
    eq_iff at added,
    eq_iff at wanted,
    eq_iff added wanted,
  )
