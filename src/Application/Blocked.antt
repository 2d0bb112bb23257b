-- ===== src/Application/Blocked.antt =====
-- An administrator's block against what a page serves.
use wheelguard.Administration.{Decisions, OverrideRow, active_overrides}
use wheelguard.Administration.Newest.{IsActive, IsInForce, active_overrides-IsInForce}
use wheelguard.Application.{
  in_force, Reply, private_page, Clocks, Settings, State, PageHeaders, page, combined, Services,
  url_for, simple_project,
}
use wheelguard.Application.Page.{simple_project-IsPageOf}
use wheelguard.Artifacts.{cacheable}
use wheelguard.Artifacts.Links.{relink, relinked}
use wheelguard.Base.{
  ℤ, ◌≡◌, refl, sym, ap, ◌∙◌, inl, inr, String, Option, none, some, List, [], ◌∷◌, ◌++◌, str_eq,
  Bool-cases, Has, true, leb_ℤ,
}
use wheelguard.Json.{Json, Fields, obj, str, null, bool, int, float, arr}
use wheelguard.Json.Dict.{get?, get, list_of, get?-put, get_of_get?}
use wheelguard.Policy.{lookup, filename_version}
use wheelguard.Policy.Release.{ReleasePolicy, Overrides, action_of}
use wheelguard.Policy.Release.Admission.{Admitted, version_of}
use wheelguard.Policy.Release.Visibility.{not-Admitted}

-- The overrides of the administrators hide the others'.
lookup-append :
    (v action : String) (xs ys : Overrides)
    → lookup v xs ≡ some action
    → lookup v (xs ++ ys) ≡ some action
unfolding lookup
lookup-append v action [] ys h = cc h
lookup-append v action ((w, a) ∷ xs) ys h = elim (Bool-cases (str_eq w v)) [
  | inl k ↦ rw k (rw k at h)
  | inr k ↦ rw k (lookup-append v action xs ys (rw k at h))
]

module _ (S : Services) (hosts : List String) where
  -- A new link leaves the version of the file.
  relink-version :
      (f : Json)
      → version_of S.platform (relink S.platform S.urls hosts (url_for S) f)
        ≡ version_of S.platform f
  relink-version (obj f) = relinked-version (cacheable S.platform S.urls hosts f)
    where
      relinked-version :
          (o : Option (String × String))
          → version_of S.platform (relinked S.platform S.urls hosts (url_for S) f o)
            ≡ filename_version S.platform (get "filename" f)
      relinked-version none = refl
      relinked-version (some (digest, filename)) = ap (filename_version S.platform) (
          get_of_get? "filename" _ f
            (get?-put "url" "filename" (str (url_for S digest filename)) f))
  relink-version null = refl
  relink-version (bool b) = refl
  relink-version (int n) = refl
  relink-version (float t) = refl
  relink-version (str t) = refl
  relink-version (arr xs) = refl

-- At the time the version's text has an active override that blocks it, and so does every active
-- override of that text that is not older.
abbrev pub IsDenied : Decisions → String → ℤ → String → Type 0
IsDenied d project now version =
    (row : OverrideRow) × Has row d.overrides
    × IsActive project now row
    × (row.version ≡ version)
    × ((other : OverrideRow)
        → Has other d.overrides
        → IsActive project now other
        → other.version ≡ version
        → leb_ℤ row.created_at other.created_at ≡ true
        → other.action ≡ "block")

pub IsDenied-lookup :
    (d : Decisions) (project : String) (now : ℤ) (version : String)
    → IsDenied d project now version
    → lookup version (active_overrides d project now) ≡ some "block"
IsDenied-lookup d project now version (row, there, active, same, newer) =
    in_force (lookup version (active_overrides d project now))
      (active_overrides-IsInForce d project now version)
  where
    in_force : (o : Option String) → IsInForce d project now version o → o ≡ some "block"
    in_force none none_active = absurd (none_active row there active same)
    in_force (some action) (newest, found, a, v, of_newest, latest) =
        ap some (sym of_newest ∙ newer newest found a v (latest row there active same))

-- Of a page of the public index.
pub page_unserved :
    (S : Services) (s : Settings) (default : ℤ) (project : String) (accept : Option String)
    (now : Clocks) (state : State) (content_type : String) (payload : Fields)
    (headers : PageHeaders) (d : Decisions) (file : Json) (v : S.platform.Version)
    → (simple_project S s default project accept now state).0 ≡ page content_type payload headers
    → state.decisions ≡ some d
    → Has file (list_of (get? "files" payload))
    → version_of S.platform file ≡ some v
    → ¬ IsDenied d (S.canonical project) now.requested_at (S.platform.version_text v)
page_unserved S s default project accept now state content_type payload headers d file v h decided m
      e b =
    let (named, free, p) =
      simple_project-IsPageOf S s default project accept now state content_type payload headers h in
    let (f, there, admitted, c, same) = p.files file m in
    blocked f p.automatic admitted
      (sym (relink-version S state.artifacts.allowed_hosts f) ∙ ap (version_of S.platform) same ∙ e)
  where
    blocked :
        (f : Json) (automatic : Overrides) {policy : ReleasePolicy} {fallback : Option ℤ}
        → Admitted S.platform policy
            (combined automatic state.decisions (S.canonical project) now.requested_at)
            fallback
            now.requested_at
            f
        → version_of S.platform f ≡ some v
        → ⊥
    blocked (obj f) automatic admitted k = not-Admitted admitted (
        ap
          (action_of S.platform
            (combined automatic state.decisions (S.canonical project) now.requested_at))
          k
        ∙ ap
            (λ o.
              lookup (S.platform.version_text v)
                (combined automatic o (S.canonical project) now.requested_at))
            decided
        ∙ lookup-append (S.platform.version_text v) "block"
            (active_overrides d (S.canonical project) now.requested_at) automatic
            (IsDenied-lookup d (S.canonical project) now.requested_at (S.platform.version_text v)
              b))
    blocked null automatic admitted k = cc k
    blocked (bool x) automatic admitted k = cc k
    blocked (int n) automatic admitted k = cc k
    blocked (float t) automatic admitted k = cc k
    blocked (str t) automatic admitted k = cc k
    blocked (arr xs) automatic admitted k = cc k

-- `payload["versions"]` of a private page
abbrev pub private_versions : Json → List Json
private_versions (obj f) = list_of (get? "versions" f)
private_versions _ = []

-- A version that a reply serves: by its text that of a file of a public page, or one of those that
-- a private page lists.
abbrev pub Serves : Services → Reply → String → Type 0
Serves S (page content_type payload headers) version =
    (file : Json) × (v : S.platform.Version) × Has file (list_of (get? "files" payload))
    × (version_of S.platform file ≡ some v)
    × (version ≡ S.platform.version_text v)
Serves S (private_page content_type payload) version = Has (str version) (private_versions payload)
Serves S _ version = ⊥
