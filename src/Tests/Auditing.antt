-- ===== src/Tests/Auditing.antt =====
-- An administrator's request from the page itself.
use wheelguard.Application.Access.{Gate, AdminRequest, Decoders}
use wheelguard.Base.{true, false, none, some, [], ◌∷◌}

abbrev decoders : Decoders
decoders = record {
  casefold = λ s. s;
  basic_text = λ s. none;
  principal_json = λ s. none;
  uuid = λ s. some s;
}

abbrev gate : Gate
gate = record {
  tokens = [];
  managed = none;
  has_admin = true;
  entra_admin_enabled = false;
  admin_tokens = "0123456789abcdef0123456789abcdef" ∷ [];
  admin_token_actor = "admin";
}

abbrev request : AdminRequest
request = record {
  path = "/admin/api/overrides/i";
  authorization = some "Bearer 0123456789abcdef0123456789abcdef";
  principal = none;
  origin = some "https://w";
  fetch_site = none;
  scheme = "https";
  netloc = "w";
  body_length = 0;
  body = none;
}
