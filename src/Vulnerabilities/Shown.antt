-- ===== src/Vulnerabilities/Shown.antt =====
-- The fallback and the release policy together: what the fallback allows is shown.
use wheelguard.Base.{ℤ, ◌≡◌, refl, String, some, List, [], ◌∷◌, Has, ok, eq_iff}
use wheelguard.Json.{Fields, obj}
use wheelguard.Json.Dict.{get}
use wheelguard.Base.Filtered.{Filtered-complete}
use wheelguard.Platform.{Platform, aware, IsLawful}
use wheelguard.Policy.{PolicyResult, filename_version, lookup}
use wheelguard.Policy.Release.{ReleasePolicy, Overrides, apply}
use wheelguard.Policy.Release.Admission.{fell_back, action}
use wheelguard.Policy.Release.Visibility.{files_of, result-Filtered}
use wheelguard.Vulnerabilities.{Advisories, advisories_of, automatic_fixed_version_allows}
use wheelguard.Vulnerabilities.Fallback.{allows-IsNewest}

lookup_first : (k v : String) (m : List (String × String)) → lookup k ((k, v) ∷ m) ≡ some v
unfolding lookup
lookup_first k v m = rw ((eq_iff k k).1 refl)

-- When the fallback allows something, the policy that runs with it shows a file of the allowed
-- release, and that release has no advisories.
pub fallback_is_shown :
    (P : Platform) (law : IsLawful P) (p : ReleasePolicy) (payload : Fields)
    (advisories : Advisories) (now minimum_age fallback_age : ℤ) (key action : String)
    (rest : Overrides) {r : PolicyResult}
    → automatic_fixed_version_allows P payload advisories (aware now) minimum_age fallback_age
      ≡ ok ((key, action) ∷ rest)
    → apply P p payload (aware now) ((key, action) ∷ rest) (some fallback_age) ≡ ok r
    → (f : Fields) × (v : P.Version) × Has (obj f) (files_of r.payload)
      × (filename_version P (get "filename" f) ≡ some v)
      × (advisories_of (P.version_text v) advisories ≡ [])
fallback_is_shown P law p payload advisories now minimum_age fallback_age key act rest h k =
    let (v, e, a, z, n) =
      allows-IsNewest P law payload advisories now minimum_age fallback_age key act rest h in
    let s = n.fresh.safe in
    let named : action P ((key, act) ∷ rest) s.file ≡ some "fallback" =
      rw (s.named, e, a) (lookup_first (P.version_text v) "fallback" rest) in
    (
      s.file,
      v,
      Filtered-complete (result-Filtered P p payload now ((key, act) ∷ rest) (some fallback_age) k)
          (fell_back n.fresh.time fallback_age named n.fresh.uploaded refl n.fresh.settled)
          s.present,
      s.named,
      s.clear,
    )
