-- ===== src/Policy/Release.antt =====
-- policy.py: `ReleasePolicy.apply`.
pub mod Admission
pub mod Decision
pub mod Visibility
pub mod Idempotent
use wheelguard.Base.{
  ℤ, ◌-ℤ◌, leb_ℤ, Bool, false, not, ◌&&◌, ◌||◌, String, Option, none, some, List, [], ◌∷◌, ◌++◌,
  any, if◌then◌else◌, Result, ok, err,
}
use wheelguard.Json.{Json, Fields, obj}
use wheelguard.Json.Dict.{get?, get, list_of}
use wheelguard.Platform.{Platform, Moment, naive, aware}
use wheelguard.Policy.{
  PolicyResult, PolicyError, naive_now, Scan, nothing_scanned, show, hide, old_enough, scan, finish,
  filename_version, upload_time, overflows, unless_raised, lookup, action_is,
}

pub record ReleasePolicy : Type 0 where
  pub minimum_age : ℤ
  pub allow_missing_upload_time : Bool

-- `overrides: dict[str, str]`, from a version's text to its action
abbrev pub Overrides : Type 0
Overrides = List (String × String)

-- `action == "fallback" and fallback_minimum_age is not None and uploaded is not None and …`
abbrev pub fallback_admits : Option String → Option ℤ → ℤ → Option ℤ → Bool
fallback_admits action (some age) now (some uploaded) =
    action_is "fallback" action && leb_ℤ uploaded (now -ℤ age)
fallback_admits action _ now _ = false

module _ (P : Platform) where
  -- `actions.get(str(version)) if version is not None else None`
  abbrev pub action_of : Overrides → Option P.Version → Option String
  action_of overrides none = none
  action_of overrides (some v) = lookup (P.version_text v) overrides

  -- The loop reads the upload time of a file that is not blocked, which may raise.
  unfoldable pub read_overflows : Overrides → Json → Bool
  unfolding overflows
  read_overflows overrides (obj file) =
      not (action_is "block" (action_of overrides (filename_version P (get "filename" file))))
      && overflows P (get "upload-time" file)
  read_overflows overrides file = false

  unfoldable pub step :
      ReleasePolicy → Overrides → Option ℤ → ℤ → Json → Scan P.Version → Scan P.Version
  step p overrides fallback now (obj file) s =
      let version = filename_version P (get "filename" file) in
      let action = action_of overrides version in
      let uploaded = upload_time P (get "upload-time" file) in
      let age_allows = old_enough p.allow_missing_upload_time (now -ℤ p.minimum_age) uploaded in
      let fallback_allows = fallback_admits action fallback now uploaded in
      if action_is "block" action
      then hide version s
      else if action_is "allow" action || (age_allows || fallback_allows)
      then show (obj file) version s
      else hide version s
  step p overrides fallback now file s = record s { visible = s.visible ++ (file ∷ []) }

  unfoldable pub apply :
      ReleasePolicy → Fields → Moment → Overrides → Option ℤ → Result PolicyError PolicyResult
  apply p payload (naive _) overrides fallback = err naive_now
  apply p payload (aware now) overrides fallback =
      let files = list_of (get? "files" payload) in
      unless_raised (any (read_overflows overrides) files)
        (finish P payload files (scan (step p overrides fallback now) files nothing_scanned))
