-- ===== src/Base/Table.antt =====
-- A table with a key: `INSERT … ON CONFLICT(key) DO UPDATE`, `SELECT … WHERE key = ?` and `DELETE`.
use mathlib.Core.Bool.{Bool, true}
use mathlib.Core.List.{List, [], ◌∷◌}
use mathlib.Core.Logic.{◌↔◌}
use mathlib.Core.Option.{Option, none, some}
use mathlib.Core.Path.{◌≡◌, refl}
use native.Mathlib.Omega.{arith}
use wheelguard.Base.Tests.{if◌then◌else◌}

module _ {K V : Type 0} (eq : K → K → Bool) where
  unfoldable pub find : K → List (K × V) → Option V
  find k [] = none
  find k ((j, v) ∷ m) = if eq j k then some v else find k m

  -- An existing row keeps its place.
  unfoldable pub upsert : K → V → List (K × V) → List (K × V)
  upsert k v [] = (k, v) ∷ []
  upsert k v ((j, w) ∷ m) = if eq j k then (j, v) ∷ m else (j, w) ∷ upsert k v m

  unfoldable pub delete : K → List (K × V) → List (K × V)
  delete k [] = []
  delete k ((j, v) ∷ m) = let rest = delete k m in if eq j k then rest else (j, v) ∷ rest

  module _ (eq_iff : (a b : K) → (eq a b ≡ true) ↔ (a ≡ b)) where
    pub find-upsert :
        (k j : K) (v : V) (m : List (K × V))
        → find j (upsert k v m) ≡ (if eq k j then some v else find j m)
    unfolding find upsert
    find-upsert k j v [] = refl
    find-upsert k j v ((i, w) ∷ m) =
        ground (arith, eq_iff k j, eq_iff i k, eq_iff i j, find-upsert k j v m)

    pub find-delete :
        (k j : K) (m : List (K × V)) → find j (delete k m) ≡ (if eq k j then none else find j m)
    unfolding find delete
    find-delete k j [] = ground arith
    find-delete k j ((i, w) ∷ m) =
        ground (arith, eq_iff k j, eq_iff i k, eq_iff i j, find-delete k j m)
