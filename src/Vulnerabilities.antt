-- ===== src/Vulnerabilities.antt =====
-- vulnerabilities.py: advisory results, the marks that they leave on files, and the automatic
-- fallback to a fixed release.
pub mod Safety
pub mod Collected
pub mod Fallback
pub mod Marks
pub mod Shown
use Prim.Native.String.{compare}
use text.Mathlib.Text.{is_lt}
use wheelguard.Base.{
  ◌&&◌, ℕ, ℤ, ◌-ℤ◌, leb_ℤ, Bool, true, false, not, String, ◌<>◌, Option, none, some, List, [], ◌∷◌,
  ◌++◌, map, any, length, nat_eq, str_eq, is_empty, join, if◌then◌else◌, Result, ok, err, ◌>>=◌,
}
use wheelguard.Base.Sort.{sort, unique_from, max_from}
use wheelguard.Json.{Json, Fields, null, str, arr, obj, items, elements}
use wheelguard.Json.Dict.{get?, get, put, list_of}
use wheelguard.Platform.{Platform, Moment, naive, aware}
use wheelguard.Policy.{
  unless_raised, overflows, lookup, filename_version, upload_time, PolicyError, naive_now,
}
use wheelguard.Policy.Release.{Overrides}

-- `dict[str, list[str]]`, from a version's text to the identifiers of its advisories
abbrev pub Advisories : Type 0
Advisories = List (String × List String)

-- `d[key] = value` on such a dictionary
unfoldable pub store {ℓ} : {V : Type ℓ} → String → V → List (String × V) → List (String × V)
store k v [] = (k, v) ∷ []
store k v ((j, w) ∷ m) = if str_eq j k then (k, v) ∷ m else (j, w) ∷ store k v m

-- `advisories.get(key, [])`
unfoldable pub advisories_of : String → Advisories → List String
unfolding lookup
advisories_of key m = elim (lookup key m) [ none ↦ [] | some ids ↦ ids ]

abbrev pub is_nil {ℓ} : {A : Type ℓ} → List A → Bool
is_nil [] = true
is_nil (x ∷ xs) = false

pub data OsvError : Type 0 where
  not_an_object unexpected_count invalid_result invalid_vulnerabilities : OsvError

-- `a < b` on texts
abbrev pub text_lt : String → String → Bool
text_lt a b = is_lt (compare a b)

-- `identifiers`: the text `id`s of the vulnerabilities that are dictionaries
unfoldable pub identifiers : List Json → List String
identifiers [] = []
identifiers (v ∷ vs) =
    let rest = identifiers vs in
    elim v [ obj f ↦ elim (get "id" f) [ str i ↦ i ∷ rest | _ ↦ rest ] | _ ↦ rest ]

unfoldable pub sorted_ids : List Json → List String
unfolding identifiers sort unique_from
sorted_ids vs = sort text_lt (unique_from str_eq [] (identifiers vs))

-- `result.get("vulns", [])`, which has to be a list
unfoldable pub vulnerabilities_of : Option Json → Result OsvError (List Json)
vulnerabilities_of none = ok []
vulnerabilities_of (some (arr vs)) = ok (elements vs)
vulnerabilities_of (some _) = err invalid_vulnerabilities

-- One round of the loop over `zip(versions, results)`.
unfoldable pub result_ids : Json → Result OsvError (List String)
unfolding sorted_ids vulnerabilities_of
result_ids (obj result) = do vs ← vulnerabilities_of (get? "vulns" result); ok (sorted_ids vs)
result_ids _ = err invalid_result

unfoldable pub collect : List String → List Json → Advisories → Result OsvError Advisories
collect (version ∷ versions) (result ∷ results) m = do
  ids ← result_ids result
  collect versions results (store version ids m)
collect _ _ m = ok m

unfoldable pub parse_osv_results : Json → List String → Result OsvError Advisories
unfolding collect
parse_osv_results (obj raw) versions = elim (get "results" raw) [
  | arr results ↦
      if nat_eq (length (elements results)) (length versions)
      then collect versions (elements results) []
      else err unexpected_count
  | _ ↦ err unexpected_count
]
parse_osv_results _ versions = err not_an_object

-- The reason for a yank, after the reason that upstream gave.
unfoldable pub yank_reason : Json → List String → String
yank_reason (str existing) ids =
    if is_empty existing
    then "Wheelguard advisories: " <> join ", " ids
    else existing <> ("; " <> ("Wheelguard advisories: " <> join ", " ids))
yank_reason _ ids = "Wheelguard advisories: " <> join ", " ids

unfoldable pub mark_with : List String → Fields → Fields
mark_with [] file = file
mark_with (i ∷ ids) file =
    put "wheelguard-advisories" (arr (items (map str (i ∷ ids))))
      (put "yanked" (str (yank_reason (get "yanked" file) (i ∷ ids))) file)

module _ (P : Platform) where
  -- `advisories.get(str(version), []) if version is not None else []`
  abbrev pub ids_of : Advisories → Option P.Version → List String
  ids_of advisories none = []
  ids_of advisories (some v) = advisories_of (P.version_text v) advisories

  unfoldable pub mark : Advisories → Json → Json
  unfolding mark_with
  mark advisories (obj file) =
      obj (mark_with (ids_of advisories (filename_version P (get "filename" file))) file)
  mark advisories file = file

  -- The files are changed in place; a payload without a list of files stays as it is.
  unfoldable pub apply_to_files : Advisories → Option Json → Fields → Fields
  unfolding mark
  apply_to_files advisories (some (arr files)) payload =
      put "files" (arr (items (map (mark advisories) (elements files)))) payload
  apply_to_files advisories _ payload = payload

  unfoldable pub apply_advisories : Fields → Advisories → Fields
  unfolding apply_to_files
  apply_advisories payload advisories = apply_to_files advisories (get? "files" payload) payload

  -- `{str(version) for file in files if …}`
  unfoldable pub version_texts : List Json → List String
  version_texts [] = []
  version_texts (file ∷ files) =
      let rest = version_texts files in
      elim file [
        | obj f ↦ elim (filename_version P (get "filename" f)) [
          | none ↦ rest
          | some v ↦ P.version_text v ∷ rest
        ]
        | _ ↦ rest
      ]

  -- `Version(a) < Version(b)`, for texts of versions
  abbrev pub version_text_lt : String → String → Bool
  version_text_lt a b = elim (P.parse_version a) [
    | none ↦ false
    | some v ↦ elim (P.parse_version b) [ none ↦ false | some w ↦ P.version_lt v w ]
  ]

  unfoldable pub payload_versions : Fields → List String
  unfolding version_texts sort unique_from
  payload_versions payload =
      sort version_text_lt (unique_from str_eq [] (version_texts (list_of (get? "files" payload))))

  -- The two sets that the loop of the fallback fills.
  pub record Safe : Type 0 where
    pub aged : List P.Version
    pub fresh : List P.Version

  -- `if uploaded is None or uploaded <= cutoff: … elif uploaded <= fallback_cutoff: …`
  abbrev pub classify : ℤ → ℤ → P.Version → Option ℤ → Safe → Safe
  classify cutoff fallback_cutoff v none s = record s { aged = v ∷ s.aged }
  classify cutoff fallback_cutoff v (some uploaded) s =
      if leb_ℤ uploaded cutoff
      then record s { aged = v ∷ s.aged }
      else if leb_ℤ uploaded fallback_cutoff
      then record s { fresh = v ∷ s.fresh }
      else s

  -- `if version is None or advisories.get(str(version)): continue`
  abbrev pub consider : Advisories → ℤ → ℤ → Option P.Version → Option ℤ → Safe → Safe
  consider advisories cutoff fallback_cutoff none uploaded s = s
  consider advisories cutoff fallback_cutoff (some v) uploaded s =
      if is_nil (advisories_of (P.version_text v) advisories)
      then classify cutoff fallback_cutoff v uploaded s
      else s

  -- The loop of the fallback reads the upload time of a file without advisories, which may raise.
  abbrev pub clear_overflows : Advisories → Option P.Version → Bool → Bool
  clear_overflows advisories none raises = false
  clear_overflows advisories (some v) raises =
      is_nil (advisories_of (P.version_text v) advisories) && raises

  unfoldable pub safe_overflows : Advisories → Json → Bool
  unfolding overflows
  safe_overflows advisories (obj f) =
      clear_overflows advisories (filename_version P (get "filename" f))
        (overflows P (get "upload-time" f))
  safe_overflows advisories _ = false

  unfoldable pub safe_versions : Advisories → ℤ → ℤ → List Json → Safe
  safe_versions advisories cutoff fallback_cutoff [] = record { aged = []; fresh = [] }
  safe_versions advisories cutoff fallback_cutoff (file ∷ files) =
      let rest = safe_versions advisories cutoff fallback_cutoff files in
      elim file [
        | obj f ↦
            consider advisories cutoff fallback_cutoff (filename_version P (get "filename" f))
              (upload_time P (get "upload-time" f)) rest
        | _ ↦ rest
      ]

  -- `if aged_safe or not fresh_safe: return {}`, and else the newest
  unfoldable pub choose : Safe → Overrides
  unfolding max_from
  choose s = elim s.aged [
    | [] ↦ elim s.fresh [
      | [] ↦ []
      | v ∷ vs ↦ (P.version_text (max_from P.version_lt v vs), "fallback") ∷ []
    ]
    | _ ∷ _ ↦ []
  ]

  unfoldable pub automatic_fixed_version_allows :
      Fields → Advisories → Moment → ℤ → ℤ → Result PolicyError Overrides
  unfolding choose safe_versions safe_overflows
  automatic_fixed_version_allows payload advisories (naive _) minimum_age fallback_age =
      err naive_now
  automatic_fixed_version_allows payload advisories (aware now) minimum_age fallback_age =
      if any (λ entry. not (is_nil entry.1)) advisories
      then unless_raised (any (safe_overflows advisories) (list_of (get? "files" payload))) (
          choose (
            safe_versions advisories (now -ℤ minimum_age) (now -ℤ fallback_age)
              (list_of (get? "files" payload))))
      else ok []
