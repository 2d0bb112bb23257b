-- ===== src/Base/Filtered.antt =====
-- `Filtered Q xs ys`: `ys` is what stays of `xs`, in order, when exactly the elements with `Q` stay.
use mathlib.Core.Bool.{Bool, true}
use mathlib.Core.List.{List, [], ◌∷◌}
use mathlib.Core.Logic.{◌↔◌, inl, inr}
use mathlib.Core.Path.{◌≡◌, sym, subst}
use wheelguard.Base.Lists.{select, Has}
use wheelguard.Base.Tests.{Bool-cases}

pub data Filtered {A : Type 0} (Q : A → Type 0) : List A → List A → Type 0 where
  done : Filtered Q [] []
  keep : {x : A} {xs ys : List A} → Q x → Filtered Q xs ys → Filtered Q (x ∷ xs) (x ∷ ys)
  drop : {x : A} {xs ys : List A} → ¬ Q x → Filtered Q xs ys → Filtered Q (x ∷ xs) ys

module _ {A : Type 0} where
  -- A selection by a test that decides `Q`.
  pub select-Filtered :
      (Q : A → Type 0) (p : A → Bool)
      → ((x : A) → (p x ≡ true) ↔ Q x)
      → (xs : List A) → Filtered Q xs (select p xs)
  select-Filtered Q p e [] = done
  select-Filtered Q p e (x ∷ xs) = elim (Bool-cases (p x)) [
    | inl h ↦ rw h (keep ((e x).0 h) (select-Filtered Q p e xs))
    | inr h ↦ rw h (drop (λ q. cc (h, (e x).1 q)) (select-Filtered Q p e xs))
  ]

  -- What stays has `Q`, and was there.
  pub Filtered-sound :
      {Q : A → Type 0} {xs ys : List A} {a : A} → Filtered Q xs ys → Has a ys → Q a × Has a xs
  Filtered-sound done m = absurd m
  Filtered-sound {Q} (keep {x = x} q f) (inl e) = (subst Q e q, inl e)
  Filtered-sound (keep q f) (inr m) = let (r, k) = Filtered-sound f m in (r, inr k)
  Filtered-sound (drop n f) m = let (r, k) = Filtered-sound f m in (r, inr k)

  -- What was there and has `Q` stays.
  pub Filtered-complete :
      {Q : A → Type 0} {xs ys : List A} {a : A} → Filtered Q xs ys → Q a → Has a xs → Has a ys
  Filtered-complete done q m = m
  Filtered-complete (keep r f) q (inl e) = inl e
  Filtered-complete (keep r f) q (inr m) = inr (Filtered-complete f q m)
  Filtered-complete {Q} (drop n f) q (inl e) = absurd (n (subst Q (sym e) q))
  Filtered-complete (drop n f) q (inr m) = Filtered-complete f q m
