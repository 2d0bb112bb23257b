-- ===== src/Publication/Serve.antt =====
-- private_service.py: `listing` and `artifact`, what is served of the private packages.
use wheelguard.Artifacts.{Bytes}
use wheelguard.Base.{
  ◌≡◌, refl, sym, ap, subst, ◌∙◌, inl, inr, Bool, true, false, not, ◌&&◌, String, ◌<>◌, Option,
  none, some, List, [], ◌∷◌, map, select, str_eq, eq_iff, if◌then◌else◌, Bool-cases, Option-cases,
  and_true, Result, ok, err, ℤ, Has,
}
use wheelguard.Base.Sort.{sort, unique_from}
use wheelguard.Base.Table.{find}
use wheelguard.Json.{Json, null, int, str, arr, obj, end, field, items}
use wheelguard.Ownership.{
  PrivateArtifact, PrivateCatalog, Files, private_project, private_artifacts, private_artifact,
  is_claimed, first_match,
}
use wheelguard.Platform.{Urls}
use wheelguard.Policy.{lookup, action_is}
use wheelguard.Policy.Release.{Overrides}
use wheelguard.Publication.{Objects, World, Packaging}
use wheelguard.Publication.Backed.{IsBacked}
use wheelguard.Upload.{Codecs}
use wheelguard.Vulnerabilities.{text_lt}

-- `PermissionError`
pub data ServeError : Type 0 where
  denied_by_block : ServeError

unfoldable pub is_blocked : Overrides → String → Bool
unfolding lookup
is_blocked overrides version = action_is "block" (lookup version overrides)

abbrev pub optional_text : Option String → Json
optional_text none = null
optional_text (some s) = str s

-- `isoformat().replace("+00:00", "Z")` of the upload time is `iso`.
module _ (U : Urls) (G : Packaging) (iso : ℤ → String) where
  unfoldable pub listed_file : String → PrivateArtifact → Json
  listed_file base_url row = obj (
      field "filename" (str row.filename) (
        field "url"
          (str (
            U.urljoin base_url
              ("/files/private/sha256/" <> row.sha256 <> "/" <> G.quote row.filename)))
          (field "hashes" (obj (field "sha256" (str row.sha256) end)) (
            field "size" (int row.size) (
              field "requires-python" (optional_text row.requires_python)
                (field "upload-time" (str (iso row.uploaded_at)) end))))))

  unfoldable pub listed : PrivateCatalog → Overrides → String → List PrivateArtifact
  unfolding private_artifacts is_blocked
  listed catalog overrides project =
      select (λ row. not (is_blocked overrides row.version)) (private_artifacts catalog project)

  unfoldable pub listing : PrivateCatalog → Overrides → String → String → Json
  unfolding listed listed_file sort unique_from
  listing catalog overrides project base_url =
      let rows = listed catalog overrides project in
      obj (
        field "meta" (obj (field "api-version" (str "1.4") end)) (
          field "name" (str project) (
            field "files" (arr (items (map (listed_file base_url) rows))) (
              field "versions"
                (arr (
                  items (
                    map str
                      (sort text_lt (unique_from str_eq [] (map (λ row. row.version) rows))))))
                end))))

-- `active_overrides` of a project is an argument.
unfoldable pub stored_artifact :
    Objects
    → (String → Overrides)
    → Option PrivateArtifact
    → Result ServeError (Option (Bytes × PrivateArtifact))
unfolding is_blocked find
stored_artifact objects overrides none = ok none
stored_artifact objects overrides (some row) =
    let found = find str_eq row.object_key objects in
    if is_blocked (overrides row.project) row.version
    then err denied_by_block
    else ok (elim found [ none ↦ none | some content ↦ some (content, row) ])

unfoldable pub artifact :
    World
    → (String → Overrides)
    → String
    → String
    → Result ServeError (Option (Bytes × PrivateArtifact))
unfolding stored_artifact private_artifact
artifact w overrides digest filename =
    stored_artifact w.objects overrides (private_artifact w.catalog digest filename)

matched :
    (catalog : PrivateCatalog) (digest filename : String) (files : Files) (row : PrivateArtifact)
    → first_match catalog digest filename files ≡ some row
    → (row.sha256 ≡ digest)
      × (row.filename ≡ filename)
      × (is_claimed (private_project catalog row.project) ≡ true)
      × ((place : String × String) × Has (place, row) files)
unfolding first_match
matched catalog digest filename [] row h = cc h
matched catalog digest filename ((key, file) ∷ files) row h =
    elim (Bool-cases (
      str_eq file.sha256 digest
      && (str_eq file.filename filename && is_claimed (private_project catalog file.project)))) [
        | inl k ↦
            let (a, bc) = and_true (str_eq file.sha256 digest) _ k in
            let (b, c) = and_true (str_eq file.filename filename) _ bc in
            let q : file ≡ row = (let q : some file ≡ some row = rw k at h in cc q) in
            subst
              (λ row.
                (row.sha256 ≡ digest)
                × (row.filename ≡ filename)
                × (is_claimed (private_project catalog row.project) ≡ true)
                × ((place : String × String) × Has (place, row) ((key, file) ∷ files)))
              q
              (
                (eq_iff file.sha256 digest).0 a,
                (eq_iff file.filename filename).0 b,
                c,
                (key, inl refl),
              )
        | inr k ↦
            let (a, b, c, (other, m)) = matched catalog digest filename files row (rw k at h) in
            (a, b, c, (other, inr m))
      ]

served :
    (objects : Objects) (overrides : String → Overrides) (o : Option PrivateArtifact)
    (content : Bytes) (row : PrivateArtifact)
    → stored_artifact objects overrides o ≡ ok (some (content, row))
    → (o ≡ some row)
      × (is_blocked (overrides row.project) row.version ≡ false)
      × (find str_eq row.object_key objects ≡ some content)
unfolding stored_artifact
served objects overrides none content row h = cc h
served objects overrides (some r) content row h =
    elim (Bool-cases (is_blocked (overrides r.project) r.version)) [
      | inl k ↦ cc (rw k at h)
      | inr k ↦ elim (Option-cases (find str_eq r.object_key objects)) [
        | inl e ↦ cc (rw (k, e) at h)
        | inr (c, e) ↦
            let q : ◌≡◌ {A = Result ServeError (Option (Bytes × PrivateArtifact))}
                (ok (some (c, r))) (ok (some (content, row))) =
              rw (k, e) at h in
            let same : r ≡ row = cc q in
            let bytes : c ≡ content = cc q in
            (
              ap some same,
              subst (λ r. is_blocked (overrides r.project) r.version ≡ false) same k,
              subst (λ r. find str_eq r.object_key objects ≡ some content) same (e ∙ ap some bytes),
            )
      ]
    ]

-- A private file that is served was asked for by its digest and name, belongs to a claimed project,
-- is not blocked by an override of its version, and has the bytes of that digest, in a state in
-- which every private file has its object.
pub artifact_lem :
    (C : Codecs) (w : World) (overrides : String → Overrides) (digest filename : String)
    (content : Bytes) (row : PrivateArtifact)
    → IsBacked C w.catalog.files w.objects
    → artifact w overrides digest filename ≡ ok (some (content, row))
    → (C.sha256 content ≡ digest)
      × (row.filename ≡ filename)
      × (is_claimed (private_project w.catalog row.project) ≡ true)
      × (is_blocked (overrides row.project) row.version ≡ false)
unfolding artifact
artifact_lem C w overrides digest filename content row b h =
    let (found, free, stored) =
      served w.objects overrides (private_artifact w.catalog digest filename) content row h in
    let (a, n, c, (key, m)) =
      matched w.catalog digest filename w.catalog.files row (unfold private_artifact in found) in
    let (bytes, there, d) = b key row m in
    let same : bytes ≡ content = cc (there, stored) in (ap C.sha256 (sym same) ∙ d ∙ a, n, c, free)
