-- ===== src/Identity/Admitted.antt =====
-- What an accepted publisher token has, whatever GitLab answers.
use wheelguard.Base.{
  ◌⊎◌, zero, suc, pos, negsuc, Has, ℤ, ◌≡◌, refl, sym, ap, subst, ◌∙◌, inl, inr, Bool, true, false,
  String, Option, none, some, List, any, str_eq, eq_iff, Bool-cases, Result, ok, err,
}
use wheelguard.Identity.{
  IdentityError, PublisherIdentity, Validator, Fetched, Jwt, signing_key, is_protected, ref_checked,
  project_checked, claims_checked, key_checked, with_key, with_kid, with_header, validate_token,
}
use wheelguard.Json.{Json, Items, Fields, null, bool, int, float, str, arr, obj, elements}
use wheelguard.Json.Dict.{get}
use wheelguard.Identity.Trusted.{
  IsKeyOf, IsTrusted, IsFound, current_keys-AreKeysOf, looked_up-IsFound, listed_in,
}

-- A claim that is equal to `True` or to the text "true".
abbrev pub IsTrue : Json → Type 0
IsTrue claim =
    (claim ≡ bool true) ⊎ ((claim ≡ str "true") ⊎ ((claim ≡ int (pos 1)) ⊎ (claim ≡ float "1.0")))

module _ (fetch : String → Fetched) (now : ℤ) where
  module _ (J : Jwt) (token : String) (v : Validator) (id : PublisherIdentity) where
    -- Who may publish: the bearer of claims that a trusted key with the identifier of the token
    -- verifies for this audience and issuer, of a job of an allowed project on a protected ref.
    pub record IsAdmitted : Type 0 where
      pub header : Fields
      pub unverified : J.unverified_header token ≡ some header
      pub kid : String
      pub named : get "kid" header ≡ str kid
      pub key_data : Json
      pub of_kid : IsKeyOf kid key_data
      pub jwks : Fields
      pub trusted : IsTrusted fetch now v jwks
      pub keys : Items
      pub listed : get "keys" jwks ≡ arr keys
      pub one_of_them : Has key_data (elements keys)
      pub key : J.Key
      pub made : J.key_of key_data ≡ some key
      pub claims : Fields
      pub verified : J.decode token key v.audience v.issuer ≡ some claims
      pub project : get "project_path" claims ≡ str id.project_path
      pub allowed : any (str_eq id.project_path) v.allowed_projects ≡ true
      pub protected : IsTrue (get "ref_protected" claims)

    protected_sound : (claim : Json) → is_protected fetch now J claim ≡ ok true → IsTrue claim
    protected_sound (bool b) h = inl (let q : b ≡ true = cc h in ap bool q)
    protected_sound (str t) h =
        inr (inl (ap str ((eq_iff t "true").0 (let q : str_eq t "true" ≡ true = cc h in q))))
    protected_sound (int (pos zero)) h = cc h
    protected_sound (int (pos (suc zero))) h = inr (inr (inl refl))
    protected_sound (int (pos (suc (suc n)))) h = cc h
    protected_sound (int (negsuc n)) h = cc h
    protected_sound (float t) h =
        inr (inr (inr (ap float ((eq_iff t "1.0").0 (let q : str_eq t "1.0" ≡ true = cc h in q)))))
    protected_sound null h = cc h
    protected_sound (arr xs) h = cc h
    protected_sound (obj f) h = cc h

    abbrev IsGrant : List String → Fields → Type 0
    IsGrant projects claims =
        (get "project_path" claims ≡ str id.project_path)
        × (any (str_eq id.project_path) projects ≡ true)
        × (is_protected fetch now J (get "ref_protected" claims) ≡ ok true)

    ref_checked_sound :
        (project : String) (claims : Fields) (p : Result IdentityError Bool)
        → ref_checked fetch now J project claims p ≡ ok id
        → (project ≡ id.project_path) × (p ≡ ok true)
    ref_checked_sound project claims (err e) h = cc h
    ref_checked_sound project claims (ok false) h = cc h
    ref_checked_sound project claims (ok true) h =
        (ap (λ r. elim r [ ok i ↦ i.project_path | err e ↦ project ]) h, refl)

    project_checked-IsGrant :
        (projects : List String) (claims : Fields) (p : Json)
        → get "project_path" claims ≡ p
        → project_checked fetch now J projects claims p ≡ ok id
        → IsGrant projects claims
    project_checked-IsGrant projects claims (str project) e h =
        elim (Bool-cases (any (str_eq project) projects)) [
          | inl k ↦
              let (same, protected) = ref_checked_sound project claims _ (rw k at h) in
              (e ∙ ap str same, subst (λ n. any (str_eq n) projects ≡ true) same k, protected)
          | inr k ↦ cc (rw k at h)
        ]
    project_checked-IsGrant projects claims null e h = cc h
    project_checked-IsGrant projects claims (bool b) e h = cc h
    project_checked-IsGrant projects claims (int n) e h = cc h
    project_checked-IsGrant projects claims (float t) e h = cc h
    project_checked-IsGrant projects claims (arr xs) e h = cc h
    project_checked-IsGrant projects claims (obj f) e h = cc h

    claims_checked-IsGrant :
        (projects : List String) (o : Option Fields)
        → claims_checked fetch now J projects o ≡ ok id
        → (claims : Fields) × (o ≡ some claims) × IsGrant projects claims
    claims_checked-IsGrant projects none h = cc h
    claims_checked-IsGrant projects (some claims) h =
        (claims, refl, project_checked-IsGrant projects claims _ refl h)

    key_checked-IsGrant :
        (w : Validator) (o : Option J.Key)
        → key_checked fetch now J token w o ≡ ok id
        → (key : J.Key) × (claims : Fields) × (o ≡ some key)
          × (J.decode token key w.audience w.issuer ≡ some claims)
          × IsGrant w.allowed_projects claims
    key_checked-IsGrant w none h = cc h
    key_checked-IsGrant w (some key) h =
        let (claims, e, g) = claims_checked-IsGrant w.allowed_projects _ h in
        (key, claims, refl, e, g)

    with_key-IsAdmitted :
        (header : Fields) (kid : String)
        → J.unverified_header token ≡ some header
        → get "kid" header ≡ str kid
        → (found : Result IdentityError (Option Json) × Validator) → IsFound fetch now kid v found
        → (with_key fetch now J token found).0 ≡ ok id
        → IsAdmitted
    with_key-IsAdmitted header kid u n (err e, w) f h = cc h
    with_key-IsAdmitted header kid u n (ok none, w) f h = cc h
    with_key-IsAdmitted header kid u n (ok (some key_data), w)
          (jwks, trusted, there, of_kid, (issuer, audience, projects)) h =
        let (key, claims, made, verified, (project, allowed, protected)) =
          key_checked-IsGrant w _ h in
        let (keys, listed, member) = listed_in fetch now jwks key_data (get "keys" jwks) there in
        record {
          header = header;
          unverified = u;
          kid = kid;
          named = n;
          key_data = key_data;
          of_kid = of_kid;
          jwks = jwks;
          trusted = trusted;
          keys = keys;
          listed = listed;
          one_of_them = member;
          key = key;
          made = made;
          claims = claims;
          verified =
              ap (λ a. J.decode token key a v.issuer) audience
              ∙ ap (λ i. J.decode token key w.audience i) issuer
              ∙ verified;
          project = project;
          allowed = subst (λ ps. any (str_eq id.project_path) ps ≡ true) (sym projects) allowed;
          protected = protected_sound _ protected;
        }

    with_kid-IsAdmitted :
        (header : Fields) (kid : Json)
        → J.unverified_header token ≡ some header
        → get "kid" header ≡ kid
        → (with_kid fetch now J token v kid).0 ≡ ok id
        → IsAdmitted
    unfolding signing_key
    with_kid-IsAdmitted header (str kid) u n h =
        with_key-IsAdmitted header kid u n _
          (looked_up-IsFound fetch now kid v _ (current_keys-AreKeysOf fetch now v v.jwks refl)) h
    with_kid-IsAdmitted header null u n h = cc h
    with_kid-IsAdmitted header (bool b) u n h = cc h
    with_kid-IsAdmitted header (int i) u n h = cc h
    with_kid-IsAdmitted header (float t) u n h = cc h
    with_kid-IsAdmitted header (arr xs) u n h = cc h
    with_kid-IsAdmitted header (obj f) u n h = cc h

    with_header-IsAdmitted :
        (o : Option Fields)
        → J.unverified_header token ≡ o
        → (with_header fetch now J token v o).0 ≡ ok id
        → IsAdmitted
    with_header-IsAdmitted none u h = cc h
    with_header-IsAdmitted (some header) u h =
        with_kid-IsAdmitted header (get "kid" header) u refl h

    -- Whatever the issuer answers, a publisher token is accepted only if a key with the identifier of
    -- its header verifies its claims for the configured audience and issuer, they name an allowed
    -- project, which becomes the identity, and their `ref_protected` is equal to `True` or "true".
    -- The key is one of the keys that the validator holds and that have not expired, or of those
    -- that it fetches from the address that the issuer's discovery names, below the issuer.
    pub validate_token-IsAdmitted : (validate_token fetch now J token v).0 ≡ ok id → IsAdmitted
    unfolding validate_token
    validate_token-IsAdmitted h = with_header-IsAdmitted (J.unverified_header token) refl h
