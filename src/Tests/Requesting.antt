-- ===== src/Tests/Requesting.antt =====
-- An override request on the sample platform.
use wheelguard.Base.{◌≡◌, refl, pos, some, ok, err, text_length, replace_z}
use wheelguard.Json.{Json, str, obj, arr, end, field, nil}
use wheelguard.Json.Dict.{get, get?}
use wheelguard.Policy.{is_out_of_range}
use wheelguard.Overrides.{
  OverrideRequest, unhashable_action, required, valid_action, parse_expiry, valid_project,
  valid_version, parse_override_request,
}
use wheelguard.Base.{strip, strip_left, strip_right}
use wheelguard.Overrides.Parsed.{IsUsable, parse_override_request-IsUsable}
use wheelguard.Tests.Samples.{sample}

abbrev request : Json → Json
request action = obj (
    field "project" (str " a ") (
      field "version" (str "1") (
        field "action" action
          (field "reason" (str "recalled") (field "expires_at" (str "2024-06-01T00:00:00Z") end)))))

abbrev override : OverrideRequest
override = record {
  project = "a";
  version = "1";
  action = "block";
  reason = "recalled";
  expires_at = some (pos 100);
}

accepted : parse_override_request sample (pos 50) (request (str "block")) ≡ ok override
unfolding parse_override_request required valid_project valid_version valid_action parse_expiry
    strip strip_left strip_right text_length is_out_of_range replace_z get get?
accepted = refl

-- An action that is a list raises `TypeError`.
list_action : parse_override_request sample (pos 50) (request (arr nil)) ≡ err unhashable_action
unfolding parse_override_request required valid_project valid_version valid_action strip strip_left
    strip_right text_length get get?
list_action = refl

parse_override_request-IsUsable_example : IsUsable sample (pos 50) override
parse_override_request-IsUsable_example =
    parse_override_request-IsUsable sample (pos 50) (request (str "block")) accepted
