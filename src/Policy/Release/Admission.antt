-- ===== src/Policy/Release/Admission.antt =====
-- Which files a release policy admits: a description that does not follow the order of the code.
use wheelguard.Base.{ℤ, ◌-ℤ◌, ◌≤ℤ◌, ◌≡◌, true, false, String, Option, none, some}
use wheelguard.Json.{Json, Fields, obj, is_dict}
use wheelguard.Json.Dict.{get}
use wheelguard.Platform.{Platform}
use wheelguard.Policy.{filename_version, upload_time}
use wheelguard.Policy.Release.{ReleasePolicy, Overrides, action_of}

-- The version that a file's name has.
abbrev pub version_of : (P : Platform) → Json → Option P.Version
version_of P (obj f) = filename_version P (get "filename" f)
version_of P _ = none

module _ (P : Platform) (overrides : Overrides) (f : Fields) where
  abbrev pub action : Option String
  action = action_of P overrides (filename_version P (get "filename" f))

  abbrev pub uploaded : Option ℤ
  uploaded = upload_time P (get "upload-time" f)

module _ (P : Platform) (p : ReleasePolicy) (overrides : Overrides) (fallback : Option ℤ)
    (now : ℤ) where
  pub data Admitted : Json → Type 0 where
    -- What is no dictionary passes through.
    unread : {f : Json} → is_dict f ≡ false → Admitted f
    -- An administrator allows the release.
    allowed : {f : Fields} → action P overrides f ≡ some "allow" → Admitted (obj f)
    -- The release is not blocked, and old enough.
    aged :
        {f : Fields} (t : ℤ)
        → ¬ (action P overrides f ≡ some "block")
        → uploaded P overrides f ≡ some t
        → t ≤ℤ now -ℤ p.minimum_age
        → Admitted (obj f)
    -- The release is not blocked, without a usable time, and the policy accepts that.
    undated :
        {f : Fields}
        → ¬ (action P overrides f ≡ some "block")
        → uploaded P overrides f ≡ none
        → p.allow_missing_upload_time ≡ true
        → Admitted (obj f)
    -- The automatic fallback, from its own minimum age on.
    fell_back :
        {f : Fields} (t age : ℤ)
        → action P overrides f ≡ some "fallback"
        → uploaded P overrides f ≡ some t
        → fallback ≡ some age
        → t ≤ℤ now -ℤ age
        → Admitted (obj f)
