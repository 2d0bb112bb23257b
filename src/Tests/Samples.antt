-- ===== src/Tests/Samples.antt =====
-- A project with two releases, and a platform that knows its names and times.
use wheelguard.Base.{
  pos, ◌≡◌, refl, Bool, true, false, String, Option, none, some, List, [], ◌∷◌, str_eq,
  if◌then◌else◌, ◌&&◌, not, ◌||◌, arith, eq_iff,
}
use wheelguard.Json.{Fields, str, arr, obj, end, field, nil, cons}
use wheelguard.Base.{ends_with, replace_z, ◌-ℤ◌, join}
use wheelguard.Json.Dict.{get?, get, put}
use wheelguard.Policy.{
  only_hidden, finish, filename_version, upload_time, is_out_of_range, overflows, lookup, scan,
}
use wheelguard.Policy.Release.{read_overflows, apply, step}
use wheelguard.Policy.Release.Decision.{admits}
use wheelguard.Policy.Release.Visibility.{outcome}
use wheelguard.Vulnerabilities.{
  safe_overflows, automatic_fixed_version_allows, apply_advisories, advisories_of, yank_reason,
}
use wheelguard.Platform.{Moment, aware, Platform, IsLawful}
use wheelguard.Policy.Release.{ReleasePolicy}

abbrev pub sample_text : Bool → String
sample_text false = "1"
sample_text true = "2"

abbrev sample_version : String → Option Bool
sample_version s = if str_eq s "1" then some false else if str_eq s "2" then some true else none

abbrev sample_wheel : String → Option Bool
sample_wheel s =
    if str_eq s "a-1-py3-none-any.whl"
    then some false
    else if str_eq s "a-2-py3-none-any.whl"
    then some true
    else none

abbrev same : Bool → Bool → Bool
same a b = (a && b) || (not a && not b)

abbrev sample_time : String → Option Moment
sample_time s =
    if str_eq s "2024-01-01T00:00:00+00:00"
    then some (aware (pos 0))
    else if str_eq s "2024-06-01T00:00:00+00:00"
    then some (aware (pos 100))
    else none

abbrev pub sample : Platform
sample = record {
  Version = Bool;
  version_eq = same;
  version_lt = λ a b. not a && b;
  parse_version = sample_version;
  version_text = sample_text;
  wheel_version = sample_wheel;
  sdist_version = λ s. none;
  canonicalize_name = λ s. some s;
  from_iso = sample_time;
  casefold = λ s. s;
}

eq_of_text : (v w : Bool) → sample_text v ≡ sample_text w → same v w ≡ true
eq_of_text false false h = refl
eq_of_text true true h = refl
eq_of_text false true h = (eq_iff "1" "2").1 h
eq_of_text true false h = (eq_iff "2" "1").1 h

pub sample-IsLawful : IsLawful sample
sample-IsLawful = record {
  eq_of_text = eq_of_text;
  eq_sym = λ v w h. ground arith;
  eq_trans = λ u v w h k. ground arith;
  lt_irrefl = λ v. ground arith;
  lt_trans = λ u v w h k. ground arith;
}

abbrev pub old_file : Fields
old_file =
    field "filename" (str "a-1-py3-none-any.whl")
      (field "upload-time" (str "2024-01-01T00:00:00Z") end)

abbrev pub new_file : Fields
new_file =
    field "filename" (str "a-2-py3-none-any.whl")
      (field "upload-time" (str "2024-06-01T00:00:00Z") end)

abbrev pub two_releases : Fields
two_releases = field "name" (str "a") (
    field "files" (arr (cons (obj old_file) (cons (obj new_file) nil)))
      (field "versions" (arr (cons (str "1") (cons (str "2") nil))) end))

abbrev pub cooldown : ReleasePolicy
cooldown = record { minimum_age = pos 30; allow_missing_upload_time = false }

abbrev pub vulnerable : List (String × List String)
vulnerable = ("1", "PYSEC-1" ∷ []) ∷ []

-- What a run of the policies unfolds.
unfoldable pub policies : Unit {0}
unfolding only_hidden get? get put finish filename_version upload_time is_out_of_range overflows
    read_overflows safe_overflows lookup scan ends_with replace_z ◌-ℤ◌ admits outcome apply step
    automatic_fixed_version_allows apply_advisories advisories_of yank_reason join
policies = tt
