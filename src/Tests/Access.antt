-- ===== src/Tests/Access.antt =====
-- An authenticator of one token, and a bearer header.
use wheelguard.Base.{
  ◌≡◌, refl, String, Option, none, some, [], ◌∷◌, true, text_length, All, ◌↔◌, ◌≤◌, ok,
}
use wheelguard.Base.Sort.{unique_from}
use wheelguard.Auth.{
  authenticator, authorize_request, authorization_token, partition, credentials_of,
}
use wheelguard.Auth.Access.{Presents, authorize_request_iff}

abbrev token : String
token = "0123456789abcdef0123456789abcdef"

abbrev no_text : String → Option String
no_text s = none

made : authenticator (token ∷ []) ≡ ok (token ∷ [])
unfolding authenticator unique_from text_length
made = refl

let_through :
    authorize_request (λ s. s) no_text (token ∷ []) (some "bearer 0123456789abcdef0123456789abcdef")
    ≡ true
unfolding authorize_request authorization_token credentials_of partition
let_through = refl

authorize_request_iff_example :
    ((authorize_request (λ s. s) no_text (token ∷ []) (some "bearer x") ≡ true)
      ↔ Presents (λ s. s) no_text (token ∷ []) (some "bearer x"))
    × All (λ t. 32 ≤ text_length t) (token ∷ [])
authorize_request_iff_example =
    authorize_request_iff (λ s. s) no_text token [] (token ∷ []) (some "bearer x") made
