-- ===== src/Vulnerabilities/Marks.antt =====
-- The marks of `apply_advisories`, and that they leave the age policy alone.
use wheelguard.Base.{
  ℤ, ◌≡◌, refl, ◌∙◌, false, String, Option, none, some, List, [], ◌∷◌, map, select, str_eq, ok,
  Bool-cases, inl, inr,
}
use wheelguard.Json.{Json, Fields, null, str, arr, obj, items, elements}
use wheelguard.Json.Dict.{get?, get, list_of, get?-put, get_of_get?, elements-items}
use wheelguard.Platform.{Platform, aware}
use wheelguard.Policy.{PolicyResult, filename_version}
use wheelguard.Policy.Release.{ReleasePolicy, Overrides, apply}
use wheelguard.Policy.Release.Decision.{admits}
use wheelguard.Policy.Release.Visibility.{files_of, files-outcome, result-outcome}
use wheelguard.Vulnerabilities.{
  Advisories, ids_of, yank_reason, mark_with, mark, apply_to_files, apply_advisories,
}

-- A mark changes two keys.
pub get?-mark_with :
    (ids : List String) (file : Fields) (key : String)
    → str_eq "yanked" key ≡ false
    → str_eq "wheelguard-advisories" key ≡ false
    → get? key (mark_with ids file) ≡ get? key file
unfolding mark_with
get?-mark_with [] file key y w = refl
get?-mark_with (i ∷ ids) file key y w =
    get?-put "wheelguard-advisories" key _ _ ∙ rw w (get?-put "yanked" key _ file ∙ rw y)

-- The file of a release with advisories says so in both keys, after the reason that upstream gave.
pub mark_with_lem :
    (i : String) (ids : List String) (file : Fields)
    → (get? "yanked" (mark_with (i ∷ ids) file)
        ≡ some (str (yank_reason (get "yanked" file) (i ∷ ids))))
      × (get? "wheelguard-advisories" (mark_with (i ∷ ids) file)
          ≡ some (arr (items (map str (i ∷ ids)))))
unfolding mark_with
mark_with_lem i ids file = (
  get?-put "wheelguard-advisories" "yanked" _ _ ∙ get?-put "yanked" "yanked" _ file,
  get?-put "wheelguard-advisories" "wheelguard-advisories" _ _,
)

module _ (P : Platform) (advisories : Advisories) where
  -- The files of the marked payload are the marked files.
  pub files-apply_advisories :
      (payload : Fields)
      → files_of (apply_advisories P payload advisories)
        ≡ map (mark P advisories) (files_of payload)
  unfolding apply_advisories apply_to_files
  files-apply_advisories payload = go (get? "files" payload) refl
    where
      go :
          (o : Option Json)
          → get? "files" payload ≡ o
          → files_of (apply_to_files P advisories o payload) ≡ map (mark P advisories) (list_of o)
      go (some (arr files)) e =
          rw
            (get?-put "files" "files" (arr (items (map (mark P advisories) (elements files))))
              payload)
            (elements-items _)
      go none e = rw e
      go (some null) e = rw e
      go (some _) e = rw e

  mark_get :
      (key : String) (ids : List String) (f : Fields)
      → str_eq "yanked" key ≡ false
      → str_eq "wheelguard-advisories" key ≡ false
      → get key (mark_with ids f) ≡ get key f
  mark_get key ids f y w = get_of_get? key _ _ (get?-mark_with ids f key y w)

  module _ (p : ReleasePolicy) (overrides : Overrides) (fallback : Option ℤ) (now : ℤ) where
    admits-mark :
        (f : Json)
        → admits P p overrides fallback now (mark P advisories f)
          ≡ admits P p overrides fallback now f
    unfolding admits mark
    admits-mark (obj f) =
        let ids = ids_of P advisories (filename_version P (get "filename" f)) in
        rw (mark_get "filename" ids f refl refl, mark_get "upload-time" ids f refl refl)
    admits-mark null = refl
    admits-mark _ = refl

    select-map :
        (fs : List Json)
        → select (admits P p overrides fallback now) (map (mark P advisories) fs)
          ≡ map (mark P advisories) (select (admits P p overrides fallback now) fs)
    select-map [] = refl
    select-map (f ∷ fs) = elim (Bool-cases (admits P p overrides fallback now f)) [
      | inl h ↦ rw (admits-mark f, h, select-map fs)
      | inr h ↦ rw (admits-mark f, h, select-map fs)
    ]

    -- Marking and the release policy commute on the files: a mark neither hides a file nor shows one.
    pub apply-marked :
        (payload : Fields) {r r' : PolicyResult}
        → apply P p payload (aware now) overrides fallback ≡ ok r
        → apply P p (apply_advisories P payload advisories) (aware now) overrides fallback ≡ ok r'
        → files_of r'.payload ≡ map (mark P advisories) (files_of r.payload)
    apply-marked payload h h' =
        rw
          (
            ← result-outcome P p payload now overrides fallback h,
            ← result-outcome P p (apply_advisories P payload advisories) now overrides fallback h',
            files-outcome P p payload now overrides fallback,
            files-outcome P p (apply_advisories P payload advisories) now overrides fallback,
            files-apply_advisories payload,
          )
          (select-map (files_of payload))
