-- ===== src/Auth/Access.antt =====
-- Which requests the authenticator lets through.
use wheelguard.Base.{
  ◌≡◌, refl, sym, subst, if◌then◌else◌, true, false, String, Option, none, some, List, [], ◌∷◌, any,
  Has, inl, inr, ◌⊎◌, ◌↔◌, Bool-cases, or_true, str_eq, eq_iff, ltb, text_length, ok, arith, ◌≤◌,
  All,
}
use wheelguard.Auth.{authenticator, authorization_token, candidate_matches, authorize_request}
use wheelguard.Vulnerabilities.{is_nil}
use wheelguard.Base.Sort.{unique_from}

any-Has :
    (candidate : String) (tokens : List String)
    → (any (str_eq candidate) tokens ≡ true) ↔ Has candidate tokens
any-Has candidate [] = (λ h. cc h, λ m. absurd m)
any-Has candidate (t ∷ ts) = (
  λ h. elim (or_true (str_eq candidate t) (any (str_eq candidate) ts) h) [
    | inl e ↦ inl (sym ((eq_iff candidate t).0 e))
    | inr r ↦ inr ((any-Has candidate ts).0 r)
  ],
  λ m. elim m [
    | inl e ↦ ground (arith, (eq_iff candidate t).1 (sym e))
    | inr r ↦ ground (arith, (any-Has candidate ts).1 r)
  ],
)

Has-seen : (seen xs : List String) (a : String) → Has a seen → Has a (unique_from str_eq seen xs)
unfolding unique_from
Has-seen seen [] a m = m
Has-seen seen (x ∷ xs) a m = elim (Bool-cases (any (str_eq x) seen)) [
  | inl h ↦ rw h (Has-seen seen xs a m)
  | inr h ↦ rw h (Has-seen (x ∷ seen) xs a (inr m))
]

-- Nothing is lost with the repetitions, and nothing comes in.
unique_complete :
    (seen xs : List String) (a : String) → Has a xs → Has a (unique_from str_eq seen xs)
unfolding unique_from
unique_complete seen [] a m = absurd m
unique_complete seen (x ∷ xs) a (inl e) = elim (Bool-cases (any (str_eq x) seen)) [
  | inl h ↦ rw h (Has-seen seen xs a (subst (λ t. Has t seen) e ((any-Has x seen).0 h)))
  | inr h ↦ rw h (Has-seen (x ∷ seen) xs a (inl e))
]
unique_complete seen (x ∷ xs) a (inr m) =
    unique_complete (if any (str_eq x) seen then seen else x ∷ seen) xs a m

unique_sound :
    (seen xs : List String) (a : String)
    → Has a (unique_from str_eq seen xs)
    → Has a seen ⊎ Has a xs
unfolding unique_from
unique_sound seen [] a m = inl m
unique_sound seen (x ∷ xs) a m = elim (Bool-cases (any (str_eq x) seen)) [
  | inl h ↦ elim (unique_sound seen xs a (rw h at m)) [ inl l ↦ inl l | inr r ↦ inr (inr r) ]
  | inr h ↦ elim (unique_sound (x ∷ seen) xs a (rw h at m)) [
    | inl (inl e) ↦ inr (inl e)
    | inl (inr l) ↦ inl l
    | inr r ↦ inr (inr r)
  ]
]

-- The header gives one of the tokens.
abbrev pub Presents :
    (String → String) → (String → Option String) → List String → Option String → Type 0
Presents casefold basic_text tokens header =
    (candidate : String) × (authorization_token casefold basic_text header ≡ some candidate)
    × Has candidate tokens

not_empty : (tokens : List String) (a : String) → Has a tokens → is_nil tokens ≡ false
not_empty [] a m = absurd m
not_empty (t ∷ ts) a m = refl

module _ (casefold : String → String) (basic_text : String → Option String) where
  matches_iff :
      (tokens : List String) (candidate : Option String)
      → (candidate_matches casefold basic_text tokens candidate ≡ true)
        ↔ ((c : String) × (candidate ≡ some c) × Has c tokens)
  matches_iff tokens none = (λ h. cc h, λ (c, e, m). cc e)
  matches_iff tokens (some c) = (
    λ h. (c, refl, (any-Has c tokens).0 h),
    λ (d, e, m). (any-Has c tokens).1 (subst (λ t. Has t tokens) (cc e) m),
  )

  -- An authenticator made of at least one token lets a request through exactly when its header
  -- presents one of the tokens that it was made of, each of which has 32 characters or more.
  pub authorize_request_iff :
      (token : String) (others kept : List String) (header : Option String)
      → authenticator (token ∷ others) ≡ ok kept
      → ((authorize_request casefold basic_text kept header ≡ true)
          ↔ Presents casefold basic_text (token ∷ others) header)
        × All (λ t. 32 ≤ text_length t) (token ∷ others)
  unfolding authenticator authorize_request
  authorize_request_iff token others kept header h =
      elim (Bool-cases (any (λ t. ltb (text_length t) 32) (token ∷ others))) [
        | inl k ↦ cc (rw k at h)
        | inr k ↦
            let q : unique_from str_eq [] (token ∷ others) ≡ kept = cc (rw k at h) in
            let there : Has token kept =
              subst (Has token) q (unique_complete [] (token ∷ others) token (inl refl)) in
            let decided = matches_iff kept (authorization_token casefold basic_text header) in
            (
              (
                λ a.
                    let (c, e, m) = decided.0 (rw (not_empty kept token there) at a) in
                    (c, e, only (unique_sound [] (token ∷ others) c (subst (Has c) (sym q) m))),
                λ (c, e, m).
                    rw (not_empty kept token there)
                      (decided.1 (c, e, subst (Has c) q (unique_complete [] (token ∷ others) c m))),
              ),
              long (token ∷ others) k,
            )
      ]
    where
      only : {c : String} → ⊥ ⊎ Has c (token ∷ others) → Has c (token ∷ others)
      only (inl m) = absurd m
      only (inr m) = m

      long :
          (ts : List String)
          → any (λ t. ltb (text_length t) 32) ts ≡ false
          → All (λ t. 32 ≤ text_length t) ts
      long [] k = tt
      long (t ∷ ts) k = (ground arith, long ts (ground arith))
