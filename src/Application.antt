-- ===== src/Application.antt =====
-- application.py: the handler of a project's page, from the request to the files it serves, over the
-- components: the ownership, the cache, the advisories, the overrides, the policy and the links.
mod Configured
pub mod Page
pub mod Open
pub mod Blocked
pub mod Access
pub mod Audited
unfoldable pub use Configured.*
use wheelguard.Administration.{Decisions, active_overrides}
use wheelguard.Advisories.{OsvReply, QueryError, osv_apply, noop_apply}
use wheelguard.Artifacts.{rewrite_urls}
use wheelguard.Artifacts.Service.{ArtifactService, configure_policy}
use wheelguard.Base.{
  ℕ, ℤ, pos, negsuc, zero, suc, pos_part, ◌+◌, ◌-◌, ◌*◌, Bool, true, false, not, ◌&&◌, ◌||◌, String,
  ◌<>◌, Option, none, some, List, [], ◌∷◌, ◌++◌, map, is_some, is_empty, str_eq, if◌then◌else◌,
  Result, ok, err,
}
use wheelguard.Base.Table.{find}
use wheelguard.Cache.{Upstream, UpstreamError, not_found, repository, get_project_cached}
use wheelguard.Database.{Database, record_advisory_target}
use wheelguard.Json.{Json, Fields, null, bool, int, str, arr, obj, end, field, items, elements}
use wheelguard.Json.Dict.{get?, get, list_of}
use wheelguard.Models.{ProjectResponse, AdvisoryResult}
use wheelguard.Ownership.{PrivateCatalog}
use wheelguard.Platform.{Platform, Urls, Moment, aware}
use wheelguard.Policy.{PolicyError, PolicyResult, filename_version, lookup}
use wheelguard.Policy.Release.{ReleasePolicy, Overrides, apply}
use wheelguard.Publication.{Packaging, owns}
use wheelguard.Publication.Serve.{listing}
use wheelguard.Registry.{register_artifacts}
use wheelguard.Vulnerabilities.{Advisories, store, is_nil, automatic_fixed_version_allows}

-- `decisions` is there with PostgreSQL, `private_catalog` with private packages.
pub record State : Type 0 where
  pub database : Database
  pub decisions : Option Decisions
  pub private_catalog : Option PrivateCatalog
  pub artifacts : ArtifactService

-- The headers of a page that tell what the policies did.
pub record PageHeaders : Type 0 where
  pub hidden_files : ℕ
  pub cache : String
  pub advisories : String
  pub vulnerable_files : ℕ
  pub fallback : Bool
  pub last_serial : Option String

-- The times at which a request reads the clock: in the cache of the metadata, in the advisory policy,
-- and as `requested_at`, which is also the time of a private page.
pub record Clocks : Type 0 where
  pub cached_at : ℤ
  pub scanned_at : ℤ
  pub requested_at : ℤ

-- A page is given by its content type and its payload, before it is rendered.
pub data Reply : Type 0 where
  redirected : String → Reply
  failed : ℕ → Reply
  private_page : String → Json → Reply
  page : String → Fields → PageHeaders → Reply

abbrev pub runtime_of : Option Decisions → Runtime
runtime_of none = []
runtime_of (some d) = d.settings

abbrev pub overrides_of : Option Decisions → String → ℤ → Overrides
overrides_of none project now = []
overrides_of (some d) project now = active_overrides d project now

-- `dict(automatic)` updated with the administrators': theirs are found first.
abbrev pub combined : Overrides → Option Decisions → String → ℤ → Overrides
combined automatic decisions project now = overrides_of decisions project now ++ automatic

abbrev pub status_of_error : UpstreamError → ℕ
status_of_error not_found = 404
status_of_error repository = 502

-- `[identifier for identifier in identifiers if isinstance(identifier, str)]`
abbrev pub texts : List Json → List String
texts [] = []
texts (str s ∷ rest) = s ∷ texts rest
texts (_ ∷ rest) = texts rest

-- What the handler takes from elsewhere: the repository's Simple API representations (simple_api.py),
-- `canonicalize_name` without validation, the OSV service with the key of a scan, and texts.
pub record Services : Type 1 where
  pub platform : Platform
  pub urls : Urls
  pub packaging : Packaging
  pub negotiate : Option String → Option String
  pub canonical : String → String
  pub upstream : Upstream
  pub osv : String → List String → OsvReply
  pub versions_key : List String → String
  pub iso : ℤ → String
  pub public_origin : String

module _ (S : Services) where
  abbrev pub marker : Option S.platform.Version → Json → Advisories → Advisories
  marker (some v) (arr ids) found = store (S.platform.version_text v) (texts (elements ids)) found
  marker _ _ found = found

  -- `_advisories_in`
  unfoldable pub advisories_from : List Json → Advisories → Advisories
  unfolding store
  advisories_from [] found = found
  advisories_from (obj f ∷ files) found = advisories_from files (
      marker (filename_version S.platform (get "filename" f)) (get "wheelguard-advisories" f) found)
  advisories_from (_ ∷ files) found = advisories_from files found

  unfoldable pub advisories_in : Fields → Advisories
  unfolding advisories_from
  advisories_in payload = advisories_from (list_of (get? "files" payload)) []

  abbrev pub url_for : String → String → String
  url_for digest filename =
      S.public_origin <> "/files/sha256/" <> digest <> "/" <> S.packaging.quote filename

  -- After the links: what is registered has to be stored.
  abbrev pub registered :
      String → PageHeaders → State → Fields → Option Database → String → Reply × State
  registered name headers state payload none content_type = (failed 500, state)
  registered name headers state payload (some db) content_type =
      (page content_type payload headers, record state { database = db })

  abbrev pub linked :
      String → String → PageHeaders → State → Fields × Option (List Json) → Reply × State
  linked content_type name headers state (payload, none) =
      (page content_type payload headers, state)
  linked content_type name headers state (payload, some files) =
      registered name headers state payload
        (register_artifacts S.platform S.urls name (field "files" (arr (items files)) end)
          state.database)
        content_type

  -- After the release policy.
  unfoldable pub publish_page :
      String
      → String
      → ProjectResponse
      → AdvisoryResult
      → Bool
      → State
      → Result PolicyError PolicyResult
      → Reply × State
  unfolding register_artifacts rewrite_urls
  publish_page content_type name upstream evaluated fallback state (err e) = (failed 500, state)
  publish_page content_type name upstream evaluated fallback state (ok filtered) =
      linked content_type name
        (record {
          hidden_files = filtered.hidden_files;
          cache = upstream.cache_status;
          advisories = evaluated.status;
          vulnerable_files = evaluated.vulnerable_files;
          fallback = fallback;
          last_serial = upstream.last_serial;
        })
        state
        (rewrite_urls S.platform S.urls state.artifacts.allowed_hosts url_for filtered.payload)

  abbrev pub request_policy : InForce → ReleasePolicy
  request_policy r = record {
    minimum_age = r.minimum_age;
    allow_missing_upload_time = r.allow_missing_upload_time;
  }

  -- After the automatic fallback.
  unfoldable pub filter_page :
      String
      → String
      → ℤ
      → InForce
      → ProjectResponse
      → AdvisoryResult
      → State
      → Result PolicyError Overrides
      → Reply × State
  unfolding publish_page apply active_overrides
  filter_page content_type name now r upstream evaluated state (err e) = (failed 500, state)
  filter_page content_type name now r upstream evaluated state (ok automatic) =
      publish_page content_type name upstream evaluated (not (is_nil automatic)) state (
        apply S.platform (request_policy r) evaluated.payload (aware now)
          (combined automatic state.decisions name now) (some r.fallback_minimum_age))

  -- After the advisories.
  unfoldable pub evaluated_page :
      String
      → String
      → ℤ
      → InForce
      → ProjectResponse
      → State
      → Result QueryError AdvisoryResult
      → Reply × State
  unfolding filter_page automatic_fixed_version_allows advisories_in
  evaluated_page content_type name now r upstream state (err e) = (failed 500, state)
  evaluated_page content_type name now r upstream state (ok evaluated) =
      filter_page content_type name now r upstream evaluated state (
        automatic_fixed_version_allows S.platform evaluated.payload
          (advisories_in evaluated.payload) (aware now) r.minimum_age r.fallback_minimum_age)

  -- The advisories, with the target that a request records.
  unfoldable pub scan_page :
      Bool
      → ℤ
      → String
      → ℤ
      → Clocks
      → Fields
      → Database
      → Result QueryError AdvisoryResult × Database
  unfolding osv_apply noop_apply record_advisory_target
  scan_page true default name ttl now payload db =
      osv_apply S.platform S.osv S.versions_key default
        (record_advisory_target db name now.requested_at) name payload (some ttl) now.scanned_at
  scan_page false default name ttl now payload db = (ok (noop_apply payload), db)

  -- After the metadata; the service of the files has its new policy by now.
  unfoldable pub fetched_page :
      ℤ
      → String
      → String
      → Clocks
      → InForce
      → State
      → Result UpstreamError ProjectResponse × Database
      → Reply × State
  unfolding scan_page evaluated_page
  fetched_page default content_type name now r state (err e, db) =
      (failed (status_of_error e), record state { database = db })
  fetched_page default content_type name now r state (ok upstream, db) =
      let (evaluated, scanned) =
        scan_page r.osv_enabled default name r.advisory_ttl now upstream.payload db in
      evaluated_page content_type name now.requested_at r upstream
        (record state { database = scanned }) evaluated

  unfoldable pub public_page :
      Settings → ℤ → String → String → Clocks → State → Option InForce → Reply × State
  unfolding fetched_page get_project_cached configure_policy
  public_page s default content_type name now state none = (failed 500, state)
  public_page s default content_type name now state (some r) =
      let artifacts =
        configure_policy r.osv_enabled r.advisory_ttl (some r.maximum_bytes) state.artifacts in
      fetched_page default content_type name now r (record state { artifacts = artifacts })
        (get_project_cached S.upstream (timed 1000000 s.metadata_ttl_seconds) state.database name
          (some r.metadata_ttl) now.cached_at)

  -- A private project is listed from its own files alone.
  abbrev pub owned_page :
      String → String → Clocks → State → Option PrivateCatalog → Reply × State → Reply × State
  owned_page content_type name now state none public = public
  owned_page content_type name now state (some catalog) public =
      if owns catalog name
      then (
        private_page content_type (
            listing S.urls S.packaging S.iso catalog
              (overrides_of state.decisions name now.requested_at) name S.public_origin),
        state,
      )
      else public

  abbrev pub negotiated : Settings → ℤ → String → Clocks → State → Option String → Reply × State
  negotiated s default name now state none = (failed 406, state)
  negotiated s default name now state (some content_type) =
      owned_page content_type name now state state.private_catalog (
        public_page s default content_type name now state (in_force s (runtime_of state.decisions)))

  -- `default` is the lifetime that the advisory policy was made with.
  unfoldable pub simple_project :
      Settings → ℤ → String → Option String → Clocks → State → Reply × State
  unfolding public_page in_force owns listing active_overrides
  simple_project s default project accept now state =
      let name = S.canonical project in
      if str_eq project name
      then negotiated s default name now state (S.negotiate accept)
      else (redirected name, state)
