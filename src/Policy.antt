-- ===== src/Policy.antt =====
-- policy.py: what the two publication-age policies share. Times and intervals are whole
-- microseconds. The clock's time less an age is taken to be a time that `datetime` can hold.
pub mod MinimumAge
pub mod Release
pub mod Scanning
pub mod Payload
pub mod Vanishing
use wheelguard.Base.{
  ℕ, ℤ, ◌-◌, leb_ℤ, Bool, true, false, not, ◌&&◌, String, Option, none, some, List, [], ◌∷◌, ◌++◌,
  pos, negsuc, Result, ok, err, length, select, any, ends_with, replace_z, str_eq, if◌then◌else◌,
}
use wheelguard.Json.{Json, Fields, str, arr, obj, items, elements}
use wheelguard.Json.Dict.{get?, get, put}
use wheelguard.Platform.{Platform, Moment, aware}

pub record PolicyResult : Type 0 where
  pub payload : Fields
  pub visible_files : ℕ
  pub hidden_files : ℕ

-- `ValueError("now must include timezone information")`, and the `OverflowError` of a time that
-- `astimezone(UTC)` moves out of the years 1 to 9999
pub data PolicyError : Type 0 where
  naive_now time_overflow : PolicyError

-- The result of a loop that an exception may have left.
abbrev pub unless_raised {ℓ} : {A : Type ℓ} → Bool → A → Result PolicyError A
unless_raised true a = err time_overflow
unless_raised false a = ok a

-- `actions.get(key)` on a `dict[str, str]`
unfoldable pub lookup {ℓ} : {V : Type ℓ} → String → List (String × V) → Option V
lookup k [] = none
lookup k ((j, v) ∷ rest) = if str_eq j k then some v else lookup k rest

-- `action == name`, for an action that may be `None`
abbrev pub action_is : String → Option String → Bool
action_is name none = false
action_is name (some a) = str_eq a name

-- The three collections that the loop over the files fills.
pub record Scan (V : Type 0) : Type 0 where
  pub visible : List Json
  pub hidden_versions : List V
  pub visible_versions : List V

module _ {V : Type 0} where
  abbrev pub nothing_scanned : Scan V
  nothing_scanned = record { visible = []; hidden_versions = []; visible_versions = [] }

  -- `versions.add(version)`, when the file name has a version
  abbrev pub add : Option V → List V → List V
  add none vs = vs
  add (some v) vs = vs ++ (v ∷ [])

  abbrev pub show : Json → Option V → Scan V → Scan V
  show file version s = record s {
    visible = s.visible ++ (file ∷ []);
    visible_versions = add version s.visible_versions;
  }

  abbrev pub hide : Option V → Scan V → Scan V
  hide version s = record s { hidden_versions = add version s.hidden_versions }

  -- `for file in files: …`
  unfoldable pub scan : (Json → Scan V → Scan V) → List Json → Scan V → Scan V
  scan step [] s = s
  scan step (file ∷ files) s = scan step files (step file s)

-- `self.allow_missing_upload_time if uploaded is None else uploaded <= cutoff`
abbrev pub old_enough : Bool → ℤ → Option ℤ → Bool
old_enough allow_missing cutoff none = allow_missing
old_enough allow_missing cutoff (some uploaded) = leb_ℤ uploaded cutoff

-- `datetime.min` and `datetime.max`, as instants in UTC
abbrev pub first_instant : ℤ
first_instant = negsuc 62135596799999999

abbrev pub last_instant : ℤ
last_instant = pos 253402300799999999

-- `astimezone(UTC)` raises `OverflowError`.
unfoldable pub is_out_of_range : Option Moment → Bool
is_out_of_range (some (aware t)) = not (leb_ℤ first_instant t && leb_ℤ t last_instant)
is_out_of_range _ = false

unfoldable pub utc : Option Moment → Option ℤ
utc (some (aware t)) = some t
utc _ = none

module _ (P : Platform) where
  unfoldable pub upload_time : Json → Option ℤ
  unfolding utc
  upload_time (str s) = utc (P.from_iso (replace_z s))
  upload_time _ = none

  -- `_upload_time` raises.
  unfoldable pub overflows : Json → Bool
  unfolding is_out_of_range
  overflows (str s) = is_out_of_range (P.from_iso (replace_z s))
  overflows _ = false

  -- Reading the upload time of a file raises.
  unfoldable pub file_overflows : Json → Bool
  unfolding overflows
  file_overflows (obj file) = overflows (get "upload-time" file)
  file_overflows _ = false

  unfoldable pub filename_version : Json → Option P.Version
  filename_version (str s) = if ends_with s ".whl" then P.wheel_version s else P.sdist_version s
  filename_version _ = none

  -- `version in versions`, for a set of versions
  abbrev pub contains : P.Version → List P.Version → Bool
  contains v vs = any (P.version_eq v) vs

  unfoldable pub only_hidden : Json → List P.Version → List P.Version → Bool
  only_hidden (str raw) hidden visible = elim (P.parse_version raw) [
    | none ↦ false
    | some v ↦ contains v hidden && not (contains v visible)
  ]
  only_hidden _ hidden visible = false

  -- `result["versions"]` without the versions of which every file is hidden, when it is a list
  unfoldable pub prune_versions : Scan P.Version → Option Json → Fields → Fields
  prune_versions s (some (arr values)) result =
      let kept =
        select (λ v. not (only_hidden v s.hidden_versions s.visible_versions)) (elements values) in
      put "versions" (arr (items kept)) result
  prune_versions s _ result = result

  -- The part of both `apply` methods below the loop.
  unfoldable pub finish : Fields → List Json → Scan P.Version → PolicyResult
  unfolding prune_versions
  finish payload files s =
      let result = put "files" (arr (items s.visible)) payload in
      record {
        payload = prune_versions s (get? "versions" result) result;
        visible_files = length s.visible;
        hidden_files = length files - length s.visible;
      }
