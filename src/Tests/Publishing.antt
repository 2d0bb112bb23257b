-- ===== src/Tests/Publishing.antt =====
-- A publisher's token, with keys that are fetched first.
use wheelguard.Base.{
  pos, ◌≡◌, refl, String, none, some, [], ◌∷◌, str_eq, starts_with, if◌then◌else◌, ok,
}
use wheelguard.Identity.{
  PublisherIdentity, Validator, Fetched, failed, document, Jwt, key_with, keys_url, refresh_keys,
  current_keys, signing_key, validate_token,
}
use wheelguard.Identity.Admitted.{IsAdmitted, validate_token-IsAdmitted}
use wheelguard.Json.{Json, Fields, str, arr, obj, nil, cons, end, field}
use wheelguard.Json.Dict.{get}

abbrev key_data : Json
key_data = obj (field "kid" (str "k") end)

abbrev gitlab : String → Fetched
gitlab url =
    if str_eq url "https://g/.well-known/openid-configuration"
    then document (obj (field "jwks_uri" (str "https://g/keys") end))
    else if str_eq url "https://g/keys"
    then document (obj (field "keys" (arr (cons key_data nil)) end))
    else failed

abbrev claims : Fields
claims =
    field "project_path" (str "g/a")
      (field "ref_protected" (str "true") (field "sub" (str "s") end))

abbrev jwt : Jwt
jwt = record {
  Key = Unit;
  unverified_header = λ token. some (field "kid" (str "k") end);
  key_of = λ value. some tt;
  decode = λ token key audience issuer. some claims;
  text_of = λ value. "s";
}

abbrev validator : Validator
validator = record {
  issuer = "https://g";
  audience = "w";
  allowed_projects = "g/a" ∷ [];
  cache_ttl = pos 60;
  jwks = none;
  jwks_expires = pos 0;
}

abbrev publisher : PublisherIdentity
publisher = record { project_path = "g/a"; subject = "s"; pipeline_id = none }

accepted : (validate_token gitlab (pos 9) jwt "token" validator).0 ≡ ok publisher
unfolding validate_token signing_key current_keys refresh_keys keys_url key_with starts_with get
accepted = refl

validate_token-IsAdmitted_example : IsAdmitted gitlab (pos 9) jwt "token" validator publisher
validate_token-IsAdmitted_example =
    validate_token-IsAdmitted gitlab (pos 9) jwt "token" validator publisher accepted
