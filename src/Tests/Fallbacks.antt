-- ===== src/Tests/Fallbacks.antt =====
-- The automatic fallback on the sample project, whose aged release is vulnerable.
use wheelguard.Base.{
  pos, ◌-ℤ◌, ◌≡◌, refl, Bool, true, String, some, List, [], ◌∷◌, Has, inl, inr, ok, arith,
}
use wheelguard.Json.{Fields, obj}
use wheelguard.Json.Dict.{get}
use wheelguard.Platform.{aware}
use wheelguard.Policy.{filename_version}
use wheelguard.Policy.Release.Visibility.{files_of, outcome, apply_lem}
use wheelguard.Vulnerabilities.{automatic_fixed_version_allows, advisories_of}
use wheelguard.Vulnerabilities.Safety.{Fresh, Aged}
use wheelguard.Vulnerabilities.Fallback.{IsNewest, allows-IsNewest, IsNewest-allows}
use wheelguard.Vulnerabilities.Shown.{fallback_is_shown}
use wheelguard.Vulnerabilities.Collected.{Aged-collected}
use wheelguard.Tests.Samples.{
  sample, sample-IsLawful, two_releases, cooldown, new_file, vulnerable, policies, sample_text,
}

allows_two :
    automatic_fixed_version_allows sample two_releases vulnerable
      (aware (pos 120))
      (pos 30)
      (pos 10)
    ≡ ok (("2", "fallback") ∷ [])
unfolding policies
allows_two = refl

allows-IsNewest_example :
    (v : Bool) × ("2" ≡ sample_text v)
    × (◌≡◌ {A = String} "fallback" "fallback")
    × (◌≡◌ {A = List (String × String)} [] [])
    × IsNewest sample sample-IsLawful vulnerable
        (pos 120 -ℤ pos 30)
        (pos 120 -ℤ pos 10)
        (files_of two_releases)
        v
allows-IsNewest_example =
    allows-IsNewest sample sample-IsLawful two_releases vulnerable (pos 120) (pos 30) (pos 10) "2"
      "fallback" [] allows_two

fallback_is_shown_example :
    (f : Fields) × (v : Bool) × Has (obj f) (
      files_of
        (outcome sample cooldown two_releases
          (pos 120)
          (("2", "fallback") ∷ [])
          (some (pos 10))).payload)
    × (filename_version sample (get "filename" f) ≡ some v)
    × (advisories_of (sample_text v) vulnerable ≡ [])
unfolding policies
fallback_is_shown_example =
    fallback_is_shown sample sample-IsLawful cooldown two_releases vulnerable (pos 120) (pos 30)
      (pos 10) "2" "fallback" [] allows_two
      (apply_lem sample cooldown two_releases (pos 120) (("2", "fallback") ∷ []) (some (pos 10))
        refl)

Fresh-two :
    Fresh sample vulnerable (files_of two_releases) (pos 120 -ℤ pos 30) (pos 120 -ℤ pos 10) true
unfolding policies
Fresh-two = record {
  safe = record { file = new_file; present = inr (inl refl); named = refl; clear = refl };
  time = pos 100;
  uploaded = refl;
  young = λ h. omega arith;
  settled = omega arith;
}

no-Aged : (v : Bool) → ¬ Aged sample vulnerable (files_of two_releases) (pos 120 -ℤ pos 30) v
unfolding policies
no-Aged v a =
    Aged-collected sample vulnerable (pos 120 -ℤ pos 30) (pos 120 -ℤ pos 10) (files_of two_releases)
      v a

IsNewest-allows_example :
    (v : Bool) × (automatic_fixed_version_allows sample two_releases vulnerable
        (aware (pos 120))
        (pos 30)
        (pos 10)
      ≡ ok ((sample_text v, "fallback") ∷ []))
    × IsNewest sample sample-IsLawful vulnerable
        (pos 120 -ℤ pos 30)
        (pos 120 -ℤ pos 10)
        (files_of two_releases)
        v
unfolding policies
IsNewest-allows_example =
    IsNewest-allows sample sample-IsLawful two_releases vulnerable (pos 120) (pos 30) (pos 10) true
      refl refl Fresh-two no-Aged
