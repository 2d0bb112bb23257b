-- ===== src/Base/Sorted.antt =====
-- What `sort` makes: the same elements, none before a smaller one.
use mathlib.Core.Bool.{Bool, true, false}
use mathlib.Core.List.{List, [], ◌∷◌}
use mathlib.Core.Logic.{inl, inr}
use mathlib.Core.Path.{◌≡◌, refl}
use wheelguard.Base.Lists.{Has, All}
use wheelguard.Base.Sort.{insert, sort}
use wheelguard.Base.Tests.{Bool-cases}

module _ {A : Type 0} (lt : A → A → Bool) where
  abbrev pub IsSorted : List A → Type 0
  IsSorted [] = Unit
  IsSorted (x ∷ xs) = All (λ y. lt y x ≡ false) xs × IsSorted xs

  insert-head : (x : A) (ys : List A) → Has x (insert lt x ys)
  unfolding insert
  insert-head x [] = inl refl
  insert-head x (y ∷ ys) = elim (Bool-cases (lt x y)) [
    | inl h ↦ rw h (inl refl)
    | inr h ↦ rw h (inr (insert-head x ys))
  ]

  insert-tail : (x a : A) (ys : List A) → Has a ys → Has a (insert lt x ys)
  unfolding insert
  insert-tail x a [] m = absurd m
  insert-tail x a (y ∷ ys) m = elim (Bool-cases (lt x y)) [
    | inl h ↦ rw h (inr m)
    | inr h ↦ rw h (elim m [ inl e ↦ inl e | inr k ↦ inr (insert-tail x a ys k) ])
  ]

  -- Sorting loses nothing.
  pub Has-sort : (a : A) (xs : List A) → Has a xs → Has a (sort lt xs)
  unfolding sort
  Has-sort a [] m = m
  Has-sort a (x ∷ xs) (inl e) = rw (← e) (insert-head x (sort lt xs))
  Has-sort a (x ∷ xs) (inr m) = insert-tail x a (sort lt xs) (Has-sort a xs m)

  module _ (asym : (a b : A) → lt a b ≡ true → lt b a ≡ false)
      (neg_trans : (a b c : A) → lt c b ≡ false → lt b a ≡ false → lt c a ≡ false) where
    above :
        (x y : A) (ys : List A)
        → lt y x ≡ false
        → All (λ z. lt z y ≡ false) ys
        → All (λ z. lt z x ≡ false) ys
    above x y [] h a = tt
    above x y (z ∷ ys) h a = (neg_trans x y z a.0 h, above x y ys h a.1)

    insert-All :
        (x y : A) (ys : List A)
        → lt x y ≡ false
        → All (λ z. lt z y ≡ false) ys
        → All (λ z. lt z y ≡ false) (insert lt x ys)
    unfolding insert
    insert-All x y [] h a = (h, tt)
    insert-All x y (z ∷ ys) h a = elim (Bool-cases (lt x z)) [
      | inl k ↦ rw k (h, a)
      | inr k ↦ rw k (a.0, insert-All x y ys h a.1)
    ]

    insert-IsSorted : (x : A) (ys : List A) → IsSorted ys → IsSorted (insert lt x ys)
    unfolding insert
    insert-IsSorted x [] s = (tt, tt)
    insert-IsSorted x (y ∷ ys) s = elim (Bool-cases (lt x y)) [
      | inl k ↦ rw k ((asym x y k, above x y ys (asym x y k) s.0), s)
      | inr k ↦ rw k (insert-All x y ys k s.0, insert-IsSorted x ys s.1)
    ]

    pub sort-IsSorted : (xs : List A) → IsSorted (sort lt xs)
    unfolding sort
    sort-IsSorted [] = tt
    sort-IsSorted (x ∷ xs) = insert-IsSorted x (sort lt xs) (sort-IsSorted xs)
