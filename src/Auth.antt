-- ===== src/Auth.antt =====
-- auth.py: `TokenAuthenticator` and `authorization_token`. `basic_text` is the UTF-8 text of a
-- strict base64 decoding, `none` where the decoding raises.
pub mod Access
use Prim.Native.Char.{code}
use Prim.Native.String.{◌∷◌}
use wheelguard.Base.{
  ℕ, Bool, true, false, ◌||◌, String, Option, none, some, List, [], any, str_eq, nat_eq, ltb,
  text_length, if◌then◌else◌, Result, ok, err,
}
use wheelguard.Base.Sort.{unique_from}
use wheelguard.Vulnerabilities.{is_nil}

-- `ValueError("Authentication tokens must contain at least 32 characters")`
pub data TokenError : Type 0 where
  short_token : TokenError

-- What `TokenAuthenticator(tokens)` keeps: the tokens without repetitions, in an order that no
-- operation reads.
unfoldable pub authenticator : List String → Result TokenError (List String)
unfolding unique_from
authenticator tokens =
    if any (λ t. ltb (text_length t) 32) tokens
    then err short_token
    else ok (unique_from str_eq [] tokens)

-- `text.partition(separator)`: the parts, if the separator is there
unfoldable pub partition : ℕ → String → Option (String × String)
partition separator String.[] = none
partition separator (c ∷ s) =
    let rest = partition separator s in
    if nat_eq (code c) separator
    then some ("", s)
    else elim rest [ none ↦ none | some (before, after) ↦ some (c ∷ before, after) ]

abbrev pub password_of : Option (String × String) → Option String
password_of none = none
password_of (some (user, password)) = some password

module _ (casefold : String → String) (basic_text : String → Option String) where
  -- `base64.b64decode(credentials, validate=True).decode("utf-8").partition(":")`
  unfoldable pub basic_password : Option String → Option String
  unfolding partition
  basic_password none = none
  basic_password (some decoded) = password_of (partition b':' decoded)

  unfoldable pub credentials_of : Option (String × String) → Option String
  unfolding basic_password
  credentials_of none = none
  credentials_of (some (scheme, credentials)) =
      if str_eq (casefold scheme) "bearer"
      then some credentials
      else if str_eq (casefold scheme) "basic"
      then basic_password (basic_text credentials)
      else none

  unfoldable pub authorization_token : Option String → Option String
  unfolding credentials_of partition
  authorization_token none = none
  authorization_token (some authorization) = credentials_of (partition b' ' authorization)

  -- `candidate is not None and self._matches(candidate)`; every token is compared
  abbrev pub candidate_matches : List String → Option String → Bool
  candidate_matches tokens none = false
  candidate_matches tokens (some candidate) = any (str_eq candidate) tokens

  unfoldable pub authorize_request : List String → Option String → Bool
  unfolding authorization_token
  authorize_request tokens header =
      if is_nil tokens then true else candidate_matches tokens (authorization_token header)
