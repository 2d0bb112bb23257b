-- ===== src/Tests/Policies.antt =====
-- The release policy on the sample project.
use wheelguard.Base.{
  pos, ◌+◌, ◌≡◌, refl, String, none, some, List, [], ◌∷◌, length, map, Has, inl, ok, arith,
}
use wheelguard.Base.Filtered.{Filtered}
use wheelguard.Json.{Json, arr, obj, str, items, cons, nil}
use wheelguard.Json.Dict.{get?}
use wheelguard.Platform.{aware}
use wheelguard.Policy.{PolicyResult}
use wheelguard.Policy.Release.{apply}
use wheelguard.Policy.Release.Admission.{Admitted, version_of}
use wheelguard.Policy.Release.Idempotent.{apply_twice}
use wheelguard.Policy.Release.Visibility.{
  files_of, outcome, apply_lem, apply-files, apply-versions, apply_monotone,
}
use wheelguard.Policy.Vanishing.{Vanished}
use wheelguard.Vulnerabilities.{mark, apply_advisories}
use wheelguard.Vulnerabilities.Marks.{apply-marked}
use wheelguard.Tests.Samples.{sample, two_releases, cooldown, old_file, vulnerable, policies}

abbrev blocked : List (String × String)
blocked = ("1", "block") ∷ []

-- Release 2 is too new: its file and its version are gone.
cooldown_runs :
    (files_of (outcome sample cooldown two_releases (pos 120) [] none).payload ≡ obj old_file ∷ [])
    × (get? "versions" (outcome sample cooldown two_releases (pos 120) [] none).payload
        ≡ some (arr (cons (str "1") nil)))
unfolding policies
cooldown_runs = (refl, refl)

apply-files_example :
    (r : PolicyResult) × (apply sample cooldown two_releases (aware (pos 120)) [] none ≡ ok r)
    × Filtered
        (Admitted sample cooldown [] none (pos 120))
        (files_of two_releases)
        (files_of r.payload)
    × (r.visible_files ≡ length (files_of r.payload))
    × (r.visible_files + r.hidden_files ≡ length (files_of two_releases))
unfolding policies
apply-files_example = apply-files sample cooldown two_releases (pos 120) [] none refl

apply-versions_example :
    (r : PolicyResult) × (kept : List Json) × (apply sample cooldown two_releases
        (aware (pos 120))
        []
        none
      ≡ ok r)
    × (get? "versions" r.payload ≡ some (arr (items kept)))
    × Filtered
        (λ v.
          ¬ Vanished sample
            (Admitted sample cooldown [] none (pos 120))
            (version_of sample)
            (files_of two_releases)
            v)
        (str "1" ∷ str "2" ∷ [])
        kept
unfolding policies
apply-versions_example =
    apply-versions sample cooldown two_releases (pos 120) [] none
      (cons (str "1") (cons (str "2") nil)) refl refl

abbrev early : PolicyResult
early = outcome sample cooldown two_releases (pos 120) [] none

abbrev late : PolicyResult
late = outcome sample cooldown two_releases (pos 200) [] none

apply_monotone_example : Has (obj old_file) (files_of late.payload)
unfolding policies
apply_monotone_example =
    apply_monotone sample cooldown [] none (pos 120) (pos 200) (omega arith) two_releases
      (obj old_file) (apply_lem sample cooldown two_releases (pos 120) [] none refl)
      (apply_lem sample cooldown two_releases (pos 200) [] none refl) (inl refl)

apply_twice_example :
    (outcome sample cooldown early.payload (pos 120) [] none).payload ≡ early.payload
unfolding policies
apply_twice_example =
    apply_twice sample cooldown [] none (pos 120) two_releases
      (apply_lem sample cooldown two_releases (pos 120) [] none refl)
      (apply_lem sample cooldown early.payload (pos 120) [] none refl)

apply-marked_example :
    files_of
      (outcome sample cooldown
        (apply_advisories sample two_releases vulnerable)
        (pos 120)
        []
        none).payload
    ≡ map (mark sample vulnerable) (files_of early.payload)
unfolding policies
apply-marked_example =
    apply-marked sample vulnerable cooldown [] none (pos 120) two_releases
      (apply_lem sample cooldown two_releases (pos 120) [] none refl)
      (apply_lem sample cooldown (apply_advisories sample two_releases vulnerable) (pos 120) [] none
        refl)
