-- ===== src/Identity.antt =====
-- identity.py: the publishing identity of a GitLab job, the named administrator of Entra, and the
-- token of a publisher's request.
pub mod Trusted
pub mod Admitted
use wheelguard.Auth.{partition}
use wheelguard.Base.{
  ℕ, ℤ, pos, zero, suc, ◌+ℤ◌, ◌-◌, ◌%◌, leb_ℤ, Bool, true, false, not, ◌&&◌, ◌||◌, String, ◌<>◌,
  Option, none, some, List, [], ◌∷◌, any, is_some, is_empty, str_eq, strip, text_length,
  starts_with, rstrip_slash, if◌then◌else◌, Result, ok, err, ◌>>=◌,
}
use wheelguard.Json.{Json, Items, Fields, null, bool, int, float, str, arr, obj, elements}
use wheelguard.Json.Dict.{get}
use wheelguard.Vulnerabilities.{is_nil}

-- The messages of `IdentityError`; then the exceptions that are none: of the HTTP client, and of a
-- value of the wrong kind (`AttributeError`, `TypeError`).
pub data IdentityError : Type 0 where
  not_authenticated invalid_principal no_usable_identity invalid_authorization : IdentityError
  no_key_identifier unknown_key invalid_token unauthorized_project unprotected_ref : IdentityError
  unsafe_key_url invalid_keys : IdentityError
  unreachable wrong_kind : IdentityError

-- `"=" * (-len(s) % 4)`
abbrev pub padding : ℕ → String
padding zero = ""
padding (suc n) = "=" <> padding n

unfoldable pub padded : String → String
unfolding text_length
padded s = s <> padding ((4 - text_length s % 4) % 4)

abbrev pub preferred : Json → Bool
preferred (str typ) =
    str_eq typ "preferred_username"
    || (str_eq typ "http://schemas.xmlsoap.org/ws/2005/05/identity/claims/emailaddress"
        || str_eq typ "http://schemas.xmlsoap.org/ws/2005/05/identity/claims/name")
preferred _ = false

-- What a claim names, if its type is preferred and its value is a text that is not blank. (A type
-- that is a list or a dictionary cannot be hashed: that exception is not modelled.)
unfoldable pub named_by : Bool → Json → Option String
unfolding strip
named_by true (str value) = if is_empty (strip value) then none else some (strip value)
named_by _ _ = none

unfoldable pub first_name : List Json → Option String
unfolding named_by
first_name [] = none
first_name (obj claim ∷ claims) =
    let rest = first_name claims in
    elim (named_by (preferred (get "typ" claim)) (get "val" claim)) [
      | none ↦ rest
      | some name ↦ some name
    ]
first_name (_ ∷ claims) = first_name claims

abbrev pub named_actor : Option String → Result IdentityError String
named_actor none = err no_usable_identity
named_actor (some name) = ok name

abbrev pub principal_claims : Json → Result IdentityError String
principal_claims (arr claims) = named_actor (first_name (elements claims))
principal_claims _ = err invalid_principal

abbrev pub principal_actor : Option Json → Result IdentityError String
principal_actor (some (obj principal)) = principal_claims (get "claims" principal)
principal_actor _ = err invalid_principal

-- `base64.b64decode(validate=True)` with `json.loads` is `decode`, `none` where one of them raises.
unfoldable pub entra_actor : (String → Option Json) → Option String → Result IdentityError String
unfolding padded first_name
entra_actor decode none = err not_authenticated
entra_actor decode (some principal) =
    if is_empty principal
    then err not_authenticated
    else principal_actor (decode (padded principal))

module _ (casefold : String → String) (basic_text : String → Option String) where
  -- After the decoding of Basic credentials.
  abbrev pub password_part : Option (String × String) → Result IdentityError String
  password_part none = err not_authenticated
  password_part (some (user, password)) =
      if is_empty password then err not_authenticated else ok password

  abbrev pub decoded_password : Option String → Result IdentityError String
  decoded_password none = err invalid_authorization
  decoded_password (some decoded) = password_part (partition b':' decoded)

  unfoldable pub scheme_token : Option (String × String) → Result IdentityError String
  unfolding partition
  scheme_token none = err not_authenticated
  scheme_token (some (scheme, value)) =
      if str_eq (casefold scheme) "bearer" && not (is_empty value)
      then ok value
      else if str_eq (casefold scheme) "basic"
      then decoded_password (basic_text value)
      else err not_authenticated

  unfoldable pub authorization_token : Option String → Result IdentityError String
  unfolding scheme_token partition
  authorization_token none = err not_authenticated
  authorization_token (some header) =
      if is_empty header then err not_authenticated else scheme_token (partition b' ' header)

pub record PublisherIdentity : Type 0 where
  pub project_path : String
  pub subject : String
  pub pipeline_id : Option String

pub record Validator : Type 0 where
  pub issuer : String
  pub audience : String
  pub allowed_projects : List String
  pub cache_ttl : ℤ
  pub jwks : Option Fields
  pub jwks_expires : ℤ

-- `GitLabOidcValidator(…)`; `oldest` is `datetime.min`.
unfoldable pub gitlab_validator : String → String → List String → ℤ → ℤ → Option Validator
unfolding starts_with rstrip_slash
gitlab_validator issuer audience allowed_projects cache_ttl oldest =
    if not (starts_with issuer "https://") || is_nil allowed_projects
    then none
    else some (record {
      issuer = rstrip_slash issuer;
      audience = audience;
      allowed_projects = allowed_projects;
      cache_ttl = cache_ttl;
      jwks = none;
      jwks_expires = oldest;
    })

-- The reply to a GET: an exception of the client, a body that is no JSON, or a document.
pub data Fetched : Type 0 where
  failed undecodable : Fetched
  document : Json → Fetched

-- PyJWT: the header of a token, a key made of its data, and the claims of a token that the key, the
-- audience and the issuer verify (RS256, with exp, iat, iss, aud and sub). `text_of` is `str(value)`.
pub record Jwt : Type 1 where
  pub Key : Type 0
  pub unverified_header : String → Option Fields
  pub key_of : Json → Option Key
  pub decode : String → Key → String → String → Option Fields
  pub text_of : Json → String

-- `key.get("kid") == kid`
abbrev pub is_kid : String → Json → Bool
is_kid kid (str k) = str_eq k kid
is_kid kid _ = false

-- `next((key for key in keys if key.get("kid") == kid), None)`, which raises on what has no `get`
unfoldable pub key_with : String → List Json → Result IdentityError (Option Json)
key_with kid [] = ok none
key_with kid (obj key ∷ keys) =
    let rest = key_with kid keys in if is_kid kid (get "kid" key) then ok (some (obj key)) else rest
key_with kid (_ ∷ keys) = err wrong_kind

-- `jwks.get("keys", [])` of keys that were checked to have a list
abbrev pub keys_in : Fields → List Json
keys_in jwks = elim (get "keys" jwks) [ arr keys ↦ elements keys | _ ↦ [] ]

abbrev pub read_json : Fetched → Result IdentityError Json
read_json failed = err unreachable
read_json undecodable = err invalid_token
read_json (document d) = ok d

-- The address of the keys, below the issuer.
unfoldable pub keys_url : String → Json → Result IdentityError String
unfolding starts_with
keys_url issuer (obj discovery) = elim (get "jwks_uri" discovery) [
  | str uri ↦ if starts_with uri (issuer <> "/") then ok uri else err unsafe_key_url
  | _ ↦ err unsafe_key_url
]
keys_url issuer _ = err unsafe_key_url

abbrev pub checked_keys : Json → Result IdentityError Fields
checked_keys (obj keys) = elim (get "keys" keys) [ arr ks ↦ ok keys | _ ↦ err invalid_keys ]
checked_keys _ = err invalid_keys

module _ (fetch : String → Fetched) (now : ℤ) where
  abbrev pub remember :
      Validator → Result IdentityError Fields → Result IdentityError Fields × Validator
  remember v (err e) = (err e, v)
  remember v (ok keys) = (ok keys, record v { jwks = some keys; jwks_expires = now +ℤ v.cache_ttl })

  -- `_keys(force=True)`
  unfoldable pub refresh_keys : Validator → Result IdentityError Fields × Validator
  unfolding keys_url
  refresh_keys v = remember v (
      read_json (fetch (v.issuer <> "/.well-known/openid-configuration")) >>= λ discovery.
      keys_url v.issuer discovery >>= λ uri. read_json (fetch uri) >>= λ keys. checked_keys keys)

  -- `_keys()`
  unfoldable pub current_keys : Validator → Option Fields → Result IdentityError Fields × Validator
  unfolding refresh_keys
  current_keys v none = refresh_keys v
  current_keys v (some keys) =
      if not (leb_ℤ v.jwks_expires now) then (ok keys, v) else refresh_keys v

  -- The key of the identifier, after one forced refresh if it is not there.
  abbrev pub forced :
      String
      → Result IdentityError Fields × Validator
      → Result IdentityError (Option Json) × Validator
  forced kid (err e, v) = (err e, v)
  forced kid (ok keys, v) = (key_with kid (keys_in keys), v)

  abbrev pub found_or_forced :
      String
      → Validator
      → Result IdentityError (Option Json)
      → Result IdentityError (Option Json) × Validator
  found_or_forced kid v (err e) = (err e, v)
  found_or_forced kid v (ok (some key)) = (ok (some key), v)
  found_or_forced kid v (ok none) = forced kid (refresh_keys v)

  abbrev pub looked_up :
      String
      → Result IdentityError Fields × Validator
      → Result IdentityError (Option Json) × Validator
  looked_up kid (err e, v) = (err e, v)
  looked_up kid (ok keys, v) = found_or_forced kid v (key_with kid (keys_in keys))

  unfoldable pub signing_key : String → Validator → Result IdentityError (Option Json) × Validator
  unfolding current_keys key_with
  signing_key kid v = looked_up kid (current_keys v v.jwks)

  module _ (J : Jwt) where
    -- `protected not in {True, "true"}`: the number 1 is equal to `True`.
    abbrev pub is_protected : Json → Result IdentityError Bool
    is_protected (bool b) = ok b
    is_protected (str s) = ok (str_eq s "true")
    is_protected (int (pos (suc zero))) = ok true
    is_protected (float s) = ok (str_eq s "1.0")
    is_protected (arr _) = err wrong_kind
    is_protected (obj _) = err wrong_kind
    is_protected _ = ok false

    abbrev pub optional_string : Json → Option String
    optional_string null = none
    optional_string v = some (J.text_of v)

    abbrev pub ref_checked :
        String → Fields → Result IdentityError Bool → Result IdentityError PublisherIdentity
    ref_checked project claims (err e) = err e
    ref_checked project claims (ok false) = err unprotected_ref
    ref_checked project claims (ok true) = ok (record {
      project_path = project;
      subject = J.text_of (get "sub" claims);
      pipeline_id = optional_string (get "pipeline_id" claims);
    })

    abbrev pub project_checked :
        List String → Fields → Json → Result IdentityError PublisherIdentity
    project_checked allowed claims (str project) =
        if any (str_eq project) allowed
        then ref_checked project claims (is_protected (get "ref_protected" claims))
        else err unauthorized_project
    project_checked allowed claims (arr _) = err wrong_kind
    project_checked allowed claims (obj _) = err wrong_kind
    project_checked allowed claims _ = err unauthorized_project

    abbrev pub claims_checked : List String → Option Fields → Result IdentityError PublisherIdentity
    claims_checked allowed none = err invalid_token
    claims_checked allowed (some claims) =
        project_checked allowed claims (get "project_path" claims)

    abbrev pub key_checked :
        String → Validator → Option J.Key → Result IdentityError PublisherIdentity
    key_checked token v none = err invalid_token
    key_checked token v (some key) =
        claims_checked v.allowed_projects (J.decode token key v.audience v.issuer)

    abbrev pub with_key :
        String
        → Result IdentityError (Option Json) × Validator
        → Result IdentityError PublisherIdentity × Validator
    with_key token (err e, v) = (err e, v)
    with_key token (ok none, v) = (err unknown_key, v)
    with_key token (ok (some key), v) = (key_checked token v (J.key_of key), v)

    abbrev pub with_kid :
        String → Validator → Json → Result IdentityError PublisherIdentity × Validator
    with_kid token v (str kid) = with_key token (signing_key kid v)
    with_kid token v _ = (err no_key_identifier, v)

    abbrev pub with_header :
        String → Validator → Option Fields → Result IdentityError PublisherIdentity × Validator
    with_header token v none = (err invalid_token, v)
    with_header token v (some header) = with_kid token v (get "kid" header)

    -- `GitLabOidcValidator.validate`
    unfoldable pub validate_token :
        String → Validator → Result IdentityError PublisherIdentity × Validator
    unfolding signing_key
    validate_token token v = with_header token v (J.unverified_header token)
