-- ===== src/Policy/MinimumAge.antt =====
-- policy.py: `MinimumAgePolicy.apply`.
use wheelguard.Base.{ℤ, ◌-ℤ◌, Bool, [], ◌∷◌, ◌++◌, any, if◌then◌else◌, Result, err}
use wheelguard.Json.{Json, Fields, obj}
use wheelguard.Json.Dict.{get?, get, list_of}
use wheelguard.Platform.{Platform, Moment, naive, aware}
use wheelguard.Policy.{
  PolicyResult, PolicyError, naive_now, Scan, nothing_scanned, show, hide, old_enough, scan, finish,
  filename_version, upload_time, file_overflows, unless_raised,
}

pub record MinimumAgePolicy : Type 0 where
  pub minimum_age : ℤ
  pub allow_missing_upload_time : Bool

module _ (P : Platform) where
  unfoldable pub step : MinimumAgePolicy → ℤ → Json → Scan P.Version → Scan P.Version
  step p cutoff (obj file) s =
      let version = filename_version P (get "filename" file) in
      let uploaded = upload_time P (get "upload-time" file) in
      if old_enough p.allow_missing_upload_time cutoff uploaded
      then show (obj file) version s
      else hide version s
  step p cutoff file s = record s { visible = s.visible ++ (file ∷ []) }

  unfoldable pub apply : MinimumAgePolicy → Fields → Moment → Result PolicyError PolicyResult
  apply p payload (naive _) = err naive_now
  apply p payload (aware now) =
      let files = list_of (get? "files" payload) in
      unless_raised (any (file_overflows P) files)
        (finish P payload files (scan (step p (now -ℤ p.minimum_age)) files nothing_scanned))
