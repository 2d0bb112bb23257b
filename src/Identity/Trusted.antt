-- ===== src/Identity/Trusted.antt =====
-- identity.py: the keys that a validator goes by, and the key that a look-up finds among them.
use wheelguard.Base.{
  ◌⊎◌, ◌<>◌, starts_with, Has, returned, ◌>>=◌, if◌then◌else◌, ℤ, ◌≡◌, refl, sym, ap, subst, ◌∙◌,
  inl, inr, true, false, String, Option, none, some, List, [], ◌∷◌, eq_iff, leb_ℤ, Bool-cases,
  Result, ok, err,
}
use wheelguard.Identity.{
  IdentityError, Validator, Fetched, failed, undecodable, document, unsafe_key_url, invalid_keys,
  read_json, keys_url, checked_keys, is_kid, key_with, keys_in, remember, refresh_keys,
  current_keys, forced, found_or_forced, looked_up,
}
use wheelguard.Json.{Json, Items, Fields, null, bool, int, float, str, arr, obj, elements}
use wheelguard.Json.Dict.{get}

-- What a refresh of the keys leaves of a validator.
abbrev pub SameRules : Validator → Validator → Type 0
SameRules v w =
    (v.issuer ≡ w.issuer) × (v.audience ≡ w.audience) × (v.allowed_projects ≡ w.allowed_projects)

-- A key of the identifier.
abbrev pub IsKeyOf : String → Json → Type 0
IsKeyOf kid key = (f : Fields) × (key ≡ obj f) × (get "kid" f ≡ str kid)

is_kid_sound : (kid : String) (k : Json) → is_kid kid k ≡ true → k ≡ str kid
is_kid_sound kid (str s) h = ap str ((eq_iff s kid).0 h)
is_kid_sound kid null h = cc h
is_kid_sound kid (bool b) h = cc h
is_kid_sound kid (int n) h = cc h
is_kid_sound kid (float t) h = cc h
is_kid_sound kid (arr xs) h = cc h
is_kid_sound kid (obj f) h = cc h

key_with-IsKeyOf :
    (kid : String) (keys : List Json) (key : Json)
    → key_with kid keys ≡ ok (some key)
    → IsKeyOf kid key
unfolding key_with
key_with-IsKeyOf kid [] key h = cc h
key_with-IsKeyOf kid (obj f ∷ keys) key h = elim (Bool-cases (is_kid kid (get "kid" f))) [
  | inl y ↦
      let q : ◌≡◌ {A = Result IdentityError (Option Json)} (ok (some (obj f))) (ok (some key)) =
        rw y at h in
      let same : obj f ≡ key = cc q in (f, sym same, is_kid_sound kid (get "kid" f) y)
  | inr n ↦ key_with-IsKeyOf kid keys key (rw n at h)
]
key_with-IsKeyOf kid (null ∷ keys) key h = cc h
key_with-IsKeyOf kid (bool b ∷ keys) key h = cc h
key_with-IsKeyOf kid (int n ∷ keys) key h = cc h
key_with-IsKeyOf kid (float t ∷ keys) key h = cc h
key_with-IsKeyOf kid (str s ∷ keys) key h = cc h
key_with-IsKeyOf kid (arr xs ∷ keys) key h = cc h

key_with-Has :
    (kid : String) (keys : List Json) (key : Json)
    → key_with kid keys ≡ ok (some key)
    → Has key keys
unfolding key_with
key_with-Has kid [] key h = cc h
key_with-Has kid (obj f ∷ keys) key h = elim (Bool-cases (is_kid kid (get "kid" f))) [
  | inl y ↦
      let q : ◌≡◌ {A = Result IdentityError (Option Json)} (ok (some (obj f))) (ok (some key)) =
        rw y at h in
      inl (let same : obj f ≡ key = cc q in same)
  | inr n ↦ inr (key_with-Has kid keys key (rw n at h))
]
key_with-Has kid (null ∷ keys) key h = cc h
key_with-Has kid (bool b ∷ keys) key h = cc h
key_with-Has kid (int n ∷ keys) key h = cc h
key_with-Has kid (float t ∷ keys) key h = cc h
key_with-Has kid (str s ∷ keys) key h = cc h
key_with-Has kid (arr xs ∷ keys) key h = cc h

module _ (fetch : String → Fetched) (now : ℤ) where
  -- The document of keys that the issuer's discovery names, at an address below the issuer.
  abbrev pub IsFetchedBelow : String → Fields → Type 0
  IsFetchedBelow issuer jwks =
      (discovery : Fields) × (uri : String) × (fetch (issuer <> "/.well-known/openid-configuration")
        ≡ document (obj discovery))
      × (get "jwks_uri" discovery ≡ str uri)
      × (starts_with uri (issuer <> "/") ≡ true)
      × (fetch uri ≡ document (obj jwks))

  -- The keys that a validator goes by: those it holds, until they expire, and those it fetches.
  abbrev pub IsTrusted : Validator → Fields → Type 0
  IsTrusted v jwks =
      ((v.jwks ≡ some jwks) × (leb_ℤ v.jwks_expires now ≡ false)) ⊎ IsFetchedBelow v.issuer jwks

  read_json_sound : (r : Fetched) (d : Json) → read_json r ≡ ok d → r ≡ document d
  read_json_sound failed d h = cc h
  read_json_sound undecodable d h = cc h
  read_json_sound (document x) d h = let q : x ≡ d = cc h in ap document q

  uri_sound :
      (issuer uri : String) (found : Json)
      → (elim found [
        | str uri ↦ if starts_with uri (issuer <> "/") then ok uri else err unsafe_key_url
        | _ ↦ err unsafe_key_url
      ])
        ≡ ok uri
      → (found ≡ str uri) × (starts_with uri (issuer <> "/") ≡ true)
  uri_sound issuer uri (str link) h = elim (Bool-cases (starts_with link (issuer <> "/"))) [
    | inl k ↦
        (let q : ◌≡◌ {A = Result IdentityError String} (ok link) (ok uri) = rw k at h in
          let same : link ≡ uri = cc q in
          (ap str same, subst (λ u. starts_with u (issuer <> "/") ≡ true) same k))
    | inr k ↦ cc (rw k at h)
  ]
  uri_sound issuer uri null h = cc h
  uri_sound issuer uri (bool b) h = cc h
  uri_sound issuer uri (int n) h = cc h
  uri_sound issuer uri (float t) h = cc h
  uri_sound issuer uri (arr xs) h = cc h
  uri_sound issuer uri (obj f) h = cc h

  keys_url_sound :
      (issuer uri : String) (d : Json)
      → keys_url issuer d ≡ ok uri
      → (f : Fields) × (d ≡ obj f)
        × (get "jwks_uri" f ≡ str uri)
        × (starts_with uri (issuer <> "/") ≡ true)
  unfolding keys_url
  keys_url_sound issuer uri (obj f) h =
      let (e, below) = uri_sound issuer uri (get "jwks_uri" f) h in (f, refl, e, below)
  keys_url_sound issuer uri null h = cc h
  keys_url_sound issuer uri (bool b) h = cc h
  keys_url_sound issuer uri (int n) h = cc h
  keys_url_sound issuer uri (float t) h = cc h
  keys_url_sound issuer uri (str t) h = cc h
  keys_url_sound issuer uri (arr xs) h = cc h

  list_sound :
      (f jwks : Fields) (found : Json)
      → ◌≡◌ {A = Result IdentityError Fields}
          (elim found [ arr ks ↦ ok f | _ ↦ err invalid_keys ])
          (ok jwks)
      → f ≡ jwks
  list_sound f jwks (arr ks) h = cc h
  list_sound f jwks null h = cc h
  list_sound f jwks (bool b) h = cc h
  list_sound f jwks (int n) h = cc h
  list_sound f jwks (float t) h = cc h
  list_sound f jwks (str t) h = cc h
  list_sound f jwks (obj g) h = cc h

  checked_keys_sound : (d : Json) (jwks : Fields) → checked_keys d ≡ ok jwks → d ≡ obj jwks
  checked_keys_sound (obj f) jwks h = ap obj (list_sound f jwks (get "keys" f) h)
  checked_keys_sound null jwks h = cc h
  checked_keys_sound (bool b) jwks h = cc h
  checked_keys_sound (int n) jwks h = cc h
  checked_keys_sound (float t) jwks h = cc h
  checked_keys_sound (str t) jwks h = cc h
  checked_keys_sound (arr xs) jwks h = cc h

  abbrev fetched_keys : String → Result IdentityError Fields
  fetched_keys issuer =
      read_json (fetch (issuer <> "/.well-known/openid-configuration")) >>= λ discovery.
      keys_url issuer discovery >>= λ uri. read_json (fetch uri) >>= λ keys. checked_keys keys

  fetched_keys-IsFetchedBelow :
      (issuer : String) (jwks : Fields) → fetched_keys issuer ≡ ok jwks → IsFetchedBelow issuer jwks
  fetched_keys-IsFetchedBelow issuer jwks h =
      let (d, found, after) =
        returned (read_json (fetch (issuer <> "/.well-known/openid-configuration"))) _ h in
      let (uri, named, rest) = returned (keys_url issuer d) _ after in
      let (keys, got, checked) = returned (read_json (fetch uri)) _ rest in
      let (f, same, link, below) = keys_url_sound issuer uri d named in
      (
        f,
        uri,
        read_json_sound _ d found ∙ ap document same,
        link,
        below,
        read_json_sound _ keys got ∙ ap document (checked_keys_sound keys jwks checked),
      )

  -- Trusted keys, with the rules as they were.
  abbrev pub AreKeysOf : Validator → Result IdentityError Fields × Validator → Type 0
  AreKeysOf v (ok keys, w) = IsTrusted v keys × SameRules v w
  AreKeysOf v (err e, w) = Unit

  remember-AreKeysOf :
      (v w : Validator) (keys : Result IdentityError Fields)
      → SameRules v w
      → fetched_keys w.issuer ≡ keys
      → AreKeysOf v (remember fetch now w keys)
  remember-AreKeysOf v w (err e) s h = tt
  remember-AreKeysOf v w (ok keys) s h = (
    inr (
        subst (λ issuer. IsFetchedBelow issuer keys) (sym s.0)
          (fetched_keys-IsFetchedBelow w.issuer keys h)),
    s,
  )

  refresh_keys-AreKeysOf :
      (v w : Validator) → SameRules v w → AreKeysOf v (refresh_keys fetch now w)
  unfolding refresh_keys
  refresh_keys-AreKeysOf v w s = remember-AreKeysOf v w (fetched_keys w.issuer) s refl

  pub current_keys-AreKeysOf :
      (v : Validator) (o : Option Fields) → v.jwks ≡ o → AreKeysOf v (current_keys fetch now v o)
  unfolding current_keys
  current_keys-AreKeysOf v none h = refresh_keys-AreKeysOf v v (refl, refl, refl)
  current_keys-AreKeysOf v (some keys) h = elim (Bool-cases (leb_ℤ v.jwks_expires now)) [
    | inl k ↦ rw k (refresh_keys-AreKeysOf v v (refl, refl, refl))
    | inr k ↦ rw k (inl (h, k), (refl, refl, refl))
  ]

  -- The key that a look-up found among trusted keys, with the rules as they were.
  abbrev pub IsFound : String → Validator → Result IdentityError (Option Json) × Validator → Type 0
  IsFound kid v (ok (some key), w) =
      (jwks : Fields) × IsTrusted v jwks × Has key (keys_in jwks) × IsKeyOf kid key × SameRules v w
  IsFound kid v (ok none, w) = Unit
  IsFound kid v (err e, w) = Unit

  pub given-IsFound :
      (kid : String) (v w : Validator) (keys : Fields)
      → IsTrusted v keys × SameRules v w
      → (found : Result IdentityError (Option Json)) → key_with kid (keys_in keys) ≡ found
      → IsFound kid v (found, w)
  given-IsFound kid v w keys s (err e) h = tt
  given-IsFound kid v w keys s (ok none) h = tt
  given-IsFound kid v w keys s (ok (some key)) h = (
    keys,
    s.0,
    key_with-Has kid (keys_in keys) key h,
    key_with-IsKeyOf kid (keys_in keys) key h,
    s.1,
  )

  pub forced-IsFound :
      (kid : String) (v : Validator) (given : Result IdentityError Fields × Validator)
      → AreKeysOf v given
      → IsFound kid v (forced fetch now kid given)
  forced-IsFound kid v (err e, w) s = tt
  forced-IsFound kid v (ok keys, w) s = given-IsFound kid v w keys s _ refl

  pub or_forced-IsFound :
      (kid : String) (v w : Validator) (keys : Fields)
      → IsTrusted v keys × SameRules v w
      → (found : Result IdentityError (Option Json)) → key_with kid (keys_in keys) ≡ found
      → IsFound kid v (found_or_forced fetch now kid w found)
  or_forced-IsFound kid v w keys s (err e) h = tt
  or_forced-IsFound kid v w keys s (ok (some key)) h =
      given-IsFound kid v w keys s (ok (some key)) h
  or_forced-IsFound kid v w keys s (ok none) h =
      forced-IsFound kid v (refresh_keys fetch now w) (refresh_keys-AreKeysOf v w s.1)

  pub looked_up-IsFound :
      (kid : String) (v : Validator) (given : Result IdentityError Fields × Validator)
      → AreKeysOf v given
      → IsFound kid v (looked_up fetch now kid given)
  looked_up-IsFound kid v (err e, w) s = tt
  looked_up-IsFound kid v (ok keys, w) s = or_forced-IsFound kid v w keys s _ refl

  pub listed_in :
      (jwks : Fields) (key found : Json)
      → Has key (elim found [ arr keys ↦ elements keys | _ ↦ [] ])
      → (ks : Items) × (found ≡ arr ks) × Has key (elements ks)
  listed_in jwks key (arr ks) m = (ks, refl, m)
  listed_in jwks key null m = absurd m
  listed_in jwks key (bool b) m = absurd m
  listed_in jwks key (int n) m = absurd m
  listed_in jwks key (float t) m = absurd m
  listed_in jwks key (str t) m = absurd m
  listed_in jwks key (obj f) m = absurd m
