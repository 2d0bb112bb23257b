-- ===== src/Base/Sort.antt =====
-- `sorted` and `set` over a comparison: insertion after what is not greater, first occurrences.
use mathlib.Core.Bool.{Bool, true, false}
use mathlib.Core.List.{List, [], ◌∷◌}
use mathlib.Core.Logic.{◌⊎◌, inl, inr}
use mathlib.Core.Path.{◌≡◌, refl, sym, ◌∙◌}
use wheelguard.Base.Lists.{any, Has}
use wheelguard.Base.Tests.{if◌then◌else◌, Bool-cases}

module _ {A : Type 0} where
  module _ (lt : A → A → Bool) where
    unfoldable pub insert : A → List A → List A
    insert x [] = x ∷ []
    insert x (y ∷ ys) = if lt x y then x ∷ y ∷ ys else y ∷ insert x ys

    unfoldable pub sort : List A → List A
    unfolding insert
    sort [] = []
    sort (x ∷ xs) = insert x (sort xs)

    unfoldable pub max_from : A → List A → A
    max_from m [] = m
    max_from m (x ∷ xs) = max_from (if lt m x then x else m) xs

    insert_sound : (x a : A) (ys : List A) → Has a (insert x ys) → (x ≡ a) ⊎ Has a ys
    unfolding insert
    insert_sound x a [] m = m
    insert_sound x a (y ∷ ys) m = elim (Bool-cases (lt x y)) [
      | inl h ↦ rw h at m
      | inr h ↦ elim (at_tail h) [
        | inl e ↦ inr (inl e)
        | inr k ↦ elim (insert_sound x a ys k) [ inl e ↦ inl e | inr k' ↦ inr (inr k') ]
      ]
    ]
      where
        at_tail : lt x y ≡ false → Has a (y ∷ insert x ys)
        at_tail h = rw h at m

    -- Sorting makes nothing up.
    pub Has-of-sort : (a : A) (xs : List A) → Has a (sort xs) → Has a xs
    unfolding sort
    Has-of-sort a [] m = m
    Has-of-sort a (x ∷ xs) m = elim (insert_sound x a (sort xs) m) [
      | inl e ↦ inl e
      | inr k ↦ inr (Has-of-sort a xs k)
    ]

    which : (m x : A) → ((if lt m x then x else m) ≡ m) ⊎ ((if lt m x then x else m) ≡ x)
    which m x = elim (Bool-cases (lt m x)) [ inl h ↦ inr (rw h) | inr h ↦ inl (rw h) ]

    -- The maximum is one of the elements.
    pub max_from_mem : (m : A) (xs : List A) → Has (max_from m xs) (m ∷ xs)
    unfolding max_from
    max_from_mem m [] = inl refl
    max_from_mem m (x ∷ xs) = elim (max_from_mem (if lt m x then x else m) xs) [
      | inl e ↦ elim (which m x) [ inl k ↦ inl (sym k ∙ e) | inr k ↦ inr (inl (sym k ∙ e)) ]
      | inr k ↦ inr (inr k)
    ]

    module _ (irrefl : (a : A) → lt a a ≡ false)
        (trans : (a b c : A) → lt a b ≡ true → lt b c ≡ true → lt a c ≡ true) where
      grows : (m x w : A) → lt m w ≡ false → lt (if lt m x then x else m) w ≡ false
      grows m x w h = elim (Bool-cases (lt m x)) [ inl k ↦ rw k (not_above k) | inr k ↦ rw (k, h) ]
        where
          not_above : lt m x ≡ true → lt x w ≡ false
          not_above k = elim (Bool-cases (lt x w)) [ inl l ↦ cc (h, trans m x w k l) | inr l ↦ l ]

      max_from_keeps : (m w : A) (xs : List A) → lt m w ≡ false → lt (max_from m xs) w ≡ false
      unfolding max_from
      max_from_keeps m w [] h = h
      max_from_keeps m w (x ∷ xs) h = max_from_keeps (if lt m x then x else m) w xs (grows m x w h)

      beats : (m x : A) → lt (if lt m x then x else m) x ≡ false
      beats m x = elim (Bool-cases (lt m x)) [ inl k ↦ rw k (irrefl x) | inr k ↦ rw (k, k) ]

      -- No element is greater than the maximum.
      pub max_from_greatest :
          (m w : A) (xs : List A) → Has w (m ∷ xs) → lt (max_from m xs) w ≡ false
      unfolding max_from
      max_from_greatest m w [] (inl e) = rw (← e) (irrefl m)
      max_from_greatest m w [] (inr k) = absurd k
      max_from_greatest m w (x ∷ xs) (inl e) =
          rw (← e) (max_from_keeps (if lt m x then x else m) m xs (grows m x m (irrefl m)))
      max_from_greatest m w (x ∷ xs) (inr (inl e)) =
          rw (← e) (max_from_keeps (if lt m x then x else m) x xs (beats m x))
      max_from_greatest m w (x ∷ xs) (inr (inr k)) =
          max_from_greatest (if lt m x then x else m) w xs (inr k)

  module _ (eq : A → A → Bool) where
    -- `set(xs)`, the latest insertion first
    unfoldable pub unique_from : List A → List A → List A
    unique_from seen [] = seen
    unique_from seen (x ∷ xs) = unique_from (if any (eq x) seen then seen else x ∷ seen) xs
