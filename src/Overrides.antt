-- ===== src/Overrides.antt =====
-- admin.py: `parse_override_request`. The expiry is kept as an instant: its text form is not modelled.
pub mod Parsed
use Prim.Native.Char.{code}
use Prim.Native.String.{◌∷◌}
use wheelguard.Base.{
  strip, ℕ, ℤ, leb_ℤ, Bool, true, false, ◌&&◌, ◌||◌, String, Option, none, some, is_empty, leb, ltb,
  nat_eq, replace_z, str_eq, text_length, if◌then◌else◌, Result, ok, err, ◌>>=◌,
}
use wheelguard.Json.{Json, null, str, arr, obj}
use wheelguard.Json.Dict.{get}
use wheelguard.Platform.{Platform, Moment, naive, aware}
use wheelguard.Policy.{is_out_of_range}

-- The messages of `InvalidOverrideError`, and the `TypeError` of `action not in {…}` on a list or
-- a dictionary, which cannot be hashed; `expiry_overflow` is the `OverflowError` of `astimezone`.
pub data OverrideError : Type 0 where
  not_an_object no_project long_project invalid_project : OverrideError
  no_version long_version invalid_version invalid_action unhashable_action : OverrideError
  no_reason long_reason invalid_expiry expiry_without_zone past_expiry expiry_overflow :
      OverrideError

pub record OverrideRequest : Type 0 where
  pub project : String
  pub version : String
  pub action : String
  pub reason : String
  pub expires_at : Option ℤ

-- A text that is not blank, stripped, of a bounded length.
unfoldable pub required : OverrideError → OverrideError → ℕ → Json → Result OverrideError String
unfolding strip text_length
required missing long limit (str s) =
    if is_empty (strip s)
    then err missing
    else if ltb limit (text_length (strip s))
    then err long
    else ok (strip s)
required missing long limit _ = err missing

unfoldable pub valid_action : Json → Result OverrideError String
valid_action (str action) =
    if str_eq action "allow" || str_eq action "block" then ok action else err invalid_action
valid_action (arr _) = err unhashable_action
valid_action (obj _) = err unhashable_action
valid_action _ = err invalid_action

-- The instant of a timestamp, which has to come after `now`.
abbrev pub future_instant : ℤ → Option Moment → Result OverrideError (Option ℤ)
future_instant now none = err invalid_expiry
future_instant now (some (naive t)) = err expiry_without_zone
future_instant now (some (aware t)) =
    if is_out_of_range (some (aware t))
    then err expiry_overflow
    else if leb_ℤ t now
    then err past_expiry
    else ok (some t)

module _ (P : Platform) where
  -- `_parse_expiry`
  unfoldable pub parse_expiry : ℤ → Json → Result OverrideError (Option ℤ)
  parse_expiry now null = ok none
  parse_expiry now (str raw) =
      if is_empty raw then ok none else future_instant now (P.from_iso (replace_z raw))
  parse_expiry now _ = err invalid_expiry

  unfoldable pub valid_project : String → Result OverrideError String
  valid_project project = elim (P.canonicalize_name project) [
    | none ↦ err invalid_project
    | some name ↦ ok name
  ]

  unfoldable pub valid_version : String → Result OverrideError String
  valid_version version = elim (P.parse_version version) [
    | none ↦ err invalid_version
    | some v ↦ ok (P.version_text v)
  ]

  unfoldable pub parse_override_request : ℤ → Json → Result OverrideError OverrideRequest
  unfolding required valid_project valid_version valid_action parse_expiry
  parse_override_request now (obj raw) = do
    stripped_project ← required no_project long_project 200 (get "project" raw)
    project ← valid_project stripped_project
    stripped_version ← required no_version long_version 200 (get "version" raw)
    version ← valid_version stripped_version
    action ← valid_action (get "action" raw)
    reason ← required no_reason long_reason 500 (get "reason" raw)
    expires_at ← parse_expiry now (get "expires_at" raw)
    ok (record {
      project = project;
      version = version;
      action = action;
      reason = reason;
      expires_at = expires_at;
    })
  parse_override_request now _ = err not_an_object
