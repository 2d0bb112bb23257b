-- ===== src/Application/Page.antt =====
-- What a page serves, traced from the answer back to the request.
use wheelguard.Advisories.{QueryError}
use wheelguard.Application.{
  Clocks, Settings, InForce, in_force, State, PageHeaders, page, runtime_of, combined, Services,
  advisories_in, url_for, registered, linked, publish_page, request_policy, filter_page,
  evaluated_page, scan_page, fetched_page, public_page, owned_page, negotiated, simple_project,
  timed,
}
use wheelguard.Artifacts.{rewrite_urls, rewrite_value}
use wheelguard.Artifacts.Links.{IsCacheable, relink, rewrite_urls-files}
use wheelguard.Artifacts.Service.{configure_policy}
use wheelguard.Base.{
  ℤ, ◌≡◌, refl, sym, ap, subst, inl, inr, Bool, false, not, String, Option, none, some, List, [],
  ◌∷◌, map, str_eq, eq_iff, Bool-cases, Has, Result, ok, err,
}
use wheelguard.Base.Filtered.{Filtered-sound}
use wheelguard.Cache.{UpstreamError, get_project_cached}
use wheelguard.Database.{Database}
use wheelguard.Json.{Json, Fields, null, bool, int, float, str, arr, obj, items}
use wheelguard.Json.Dict.{get?, list_of, get?-put}
use wheelguard.Models.{ProjectResponse, AdvisoryResult}
use wheelguard.Ownership.{PrivateCatalog}
use wheelguard.Platform.{aware}
use wheelguard.Policy.{PolicyError, PolicyResult}
use wheelguard.Policy.Release.{Overrides, apply}
use wheelguard.Policy.Release.Admission.{Admitted}
use wheelguard.Policy.Release.Visibility.{files_of, result-Filtered}
use wheelguard.Publication.{owns}
use wheelguard.Vulnerabilities.{automatic_fixed_version_allows, is_nil}

pub Has-map :
    {A B : Type 0} (f : A → B) (b : B) (xs : List A)
    → Has b (map f xs)
    → (a : A) × Has a xs × (f a ≡ b)
Has-map f b [] m = absurd m
Has-map f b (x ∷ xs) (inl e) = (x, inl refl, e)
Has-map f b (x ∷ xs) (inr m) = let (a, k, e) = Has-map f b xs m in (a, inr k, e)

module _ (S : Services) where
  -- A file of the new payload is a cacheable file of the old one, with its new link.
  abbrev IsRelinked : List String → Fields → Json → Type 0
  IsRelinked hosts payload file =
      (f : Json) × Has f (files_of payload)
      × IsCacheable S.platform S.urls hosts f
      × (relink S.platform S.urls hosts (url_for S) f ≡ file)

  rewritten :
      (hosts : List String) (payload : Fields) (o : Option Json)
      → get? "files" payload ≡ o
      → (file : Json)
      → Has file (files_of (rewrite_urls S.platform S.urls hosts (url_for S) payload).0)
      → IsRelinked hosts payload file
  unfolding rewrite_urls
  rewritten hosts payload (some (arr files)) h file m =
      let (kept, e, filtered, shown) =
        rewrite_urls-files S.platform S.urls hosts (url_for S) payload files h in
      let (f, k, same) =
        Has-map (relink S.platform S.urls hosts (url_for S)) file kept (subst (Has file) shown m) in
      let (c, there) = Filtered-sound filtered k in
      (f, subst (λ o. Has f (list_of o)) (sym h) there, c, same)
  rewritten hosts payload none h file m =
      absurd (rw (h, rewrite_value, get?-put "files" "files" (arr (items [])) payload) at m)
  rewritten hosts payload (some null) h file m = absurd (rw (h, rewrite_value, h) at m)
  rewritten hosts payload (some (bool b)) h file m = absurd (rw (h, rewrite_value, h) at m)
  rewritten hosts payload (some (int n)) h file m = absurd (rw (h, rewrite_value, h) at m)
  rewritten hosts payload (some (float t)) h file m = absurd (rw (h, rewrite_value, h) at m)
  rewritten hosts payload (some (str t)) h file m = absurd (rw (h, rewrite_value, h) at m)
  rewritten hosts payload (some (obj f)) h file m = absurd (rw (h, rewrite_value, h) at m)

  linked-payload :
      (content_type name : String) (headers : PageHeaders) (state : State)
      (links : Fields × Option (List Json)) {ct : String} {payload : Fields} {hs : PageHeaders}
      → (linked S content_type name headers state links).0 ≡ page ct payload hs
      → links.0 ≡ payload
  linked-payload content_type name headers state (payload, none) h = cc h
  linked-payload content_type name headers state (payload, some files) h = registered-payload _ h
    where
      registered-payload :
          (o : Option Database) {ct : String} {new : Fields} {hs : PageHeaders}
          → (registered S name headers state payload o content_type).0 ≡ page ct new hs
          → payload ≡ new
      registered-payload none h = cc h
      registered-payload (some db) h = cc h

  -- Nobody owns the name.
  abbrev pub IsPublic : String → Option PrivateCatalog → Type 0
  IsPublic name none = Unit
  IsPublic name (some catalog) = owns catalog name ≡ false

  module _ (s : Settings) (default : ℤ) (name : String) (now : Clocks) (before : State)
      (payload : Fields) where
    -- The settings in force, the metadata, its evaluation and the fallback behind a page, and for
    -- every file of it the file of the metadata: cacheable, admitted by the policy under both the
    -- administrators' overrides and the fallback, and shown with its new link.
    pub record IsPageOf : Type 0 where
      pub in_force_now : InForce
      pub read : in_force s (runtime_of before.decisions) ≡ some in_force_now
      pub upstream : ProjectResponse
      pub fetched :
          (get_project_cached S.upstream
            (timed 1000000 s.metadata_ttl_seconds)
            before.database
            name
            (some in_force_now.metadata_ttl)
            now.cached_at).0
          ≡ ok upstream
      pub evaluated : AdvisoryResult
      pub scanned :
          (scan_page S in_force_now.osv_enabled default name in_force_now.advisory_ttl now
            upstream.payload
            (get_project_cached S.upstream
              (timed 1000000 s.metadata_ttl_seconds)
              before.database
              name
              (some in_force_now.metadata_ttl)
              now.cached_at).1).0
          ≡ ok evaluated
      pub automatic : Overrides
      pub chosen :
          automatic_fixed_version_allows S.platform evaluated.payload
            (advisories_in S evaluated.payload)
            (aware now.requested_at)
            in_force_now.minimum_age
            in_force_now.fallback_minimum_age
          ≡ ok automatic
      pub files :
          (file : Json)
          → Has file (files_of payload)
          → (f : Json) × Has f (files_of evaluated.payload)
            × Admitted S.platform
                (request_policy S in_force_now)
                (combined automatic before.decisions name now.requested_at)
                (some in_force_now.fallback_minimum_age)
                now.requested_at
                f
            × IsCacheable S.platform S.urls before.artifacts.allowed_hosts f
            × (relink S.platform S.urls before.artifacts.allowed_hosts (url_for S) f ≡ file)

    module _ (r : InForce) {ct : String} {hs : PageHeaders} where
      -- The files that the release policy leaves, with their links.
      publish_page-files :
          (content_type : String) (upstream : ProjectResponse) (evaluated : AdvisoryResult)
          (automatic : Overrides) (fallback : Bool) (state : State)
          → state.artifacts.allowed_hosts ≡ before.artifacts.allowed_hosts
          → (o : Result PolicyError PolicyResult)
          → apply S.platform
              (request_policy S r)
              evaluated.payload
              (aware now.requested_at)
              (combined automatic before.decisions name now.requested_at)
              (some r.fallback_minimum_age)
            ≡ o
          → (publish_page S content_type name upstream evaluated fallback state o).0
            ≡ page ct payload hs
          → (file : Json) → Has file (files_of payload)
          → (f : Json) × Has f (files_of evaluated.payload)
            × Admitted S.platform
                (request_policy S r)
                (combined automatic before.decisions name now.requested_at)
                (some r.fallback_minimum_age)
                now.requested_at
                f
            × IsCacheable S.platform S.urls before.artifacts.allowed_hosts f
            × (relink S.platform S.urls before.artifacts.allowed_hosts (url_for S) f ≡ file)
      unfolding publish_page
      publish_page-files content_type upstream evaluated automatic fallback state hosts (err e) a h
            file m =
          cc h
      publish_page-files content_type upstream evaluated automatic fallback state hosts
            (ok filtered) a h file m =
          let same =
            linked-payload content_type name _ state
              (rewrite_urls S.platform S.urls state.artifacts.allowed_hosts (url_for S)
                filtered.payload)
              h in
          let (f, k, c, e) = rewritten before.artifacts.allowed_hosts filtered.payload _ refl file (
            subst
              (λ hosts.
                Has file
                  (files_of (rewrite_urls S.platform S.urls hosts (url_for S) filtered.payload).0))
              hosts (subst (λ p. Has file (files_of p)) (sym same) m)) in
          let (admitted, there) =
            Filtered-sound
              (result-Filtered S.platform (request_policy S r) evaluated.payload now.requested_at
                (combined automatic before.decisions name now.requested_at)
                (some r.fallback_minimum_age) a)
              k in
          (f, there, admitted, c, e)

    module _ (content_type : String) (r : InForce) (state : State)
        (read : in_force s (runtime_of before.decisions) ≡ some r)
        (hosts : state.artifacts.allowed_hosts ≡ before.artifacts.allowed_hosts)
        (same : state.decisions ≡ before.decisions) where
      abbrev cached : Result UpstreamError ProjectResponse × Database
      cached =
          get_project_cached S.upstream (timed 1000000 s.metadata_ttl_seconds) before.database name
            (some r.metadata_ttl) now.cached_at

      module _ (upstream : ProjectResponse) (fetched : cached.0 ≡ ok upstream) (db : Database) where
        abbrev left : State
        left = record state { database = db }

        abbrev scanned_page : Result QueryError AdvisoryResult
        scanned_page =
            (scan_page S r.osv_enabled default name r.advisory_ttl now upstream.payload cached.1).0

        filter_page-IsPageOf :
            {ct : String} {hs : PageHeaders} (evaluated : AdvisoryResult)
            → scanned_page ≡ ok evaluated
            → (o : Result PolicyError Overrides)
            → automatic_fixed_version_allows S.platform evaluated.payload
                (advisories_in S evaluated.payload)
                (aware now.requested_at)
                r.minimum_age
                r.fallback_minimum_age
              ≡ o
            → (filter_page S content_type name now.requested_at r upstream evaluated left o).0
              ≡ page ct payload hs
            → IsPageOf
        unfolding filter_page
        filter_page-IsPageOf evaluated e (err x) a h = cc h
        filter_page-IsPageOf evaluated e (ok automatic) a h = record {
          in_force_now = r;
          read = read;
          upstream = upstream;
          fetched = fetched;
          evaluated = evaluated;
          scanned = e;
          automatic = automatic;
          chosen = a;
          files =
              publish_page-files r content_type upstream evaluated automatic
                (not (is_nil automatic)) left hosts _
                (ap
                  (λ d.
                    apply S.platform (request_policy S r) evaluated.payload (aware now.requested_at)
                      (combined automatic d name now.requested_at) (some r.fallback_minimum_age))
                  (sym same))
                h;
        }

        evaluated_page-IsPageOf :
            {ct : String} {hs : PageHeaders} (o : Result QueryError AdvisoryResult)
            → scanned_page ≡ o
            → (evaluated_page S content_type name now.requested_at r upstream left o).0
              ≡ page ct payload hs
            → IsPageOf
        unfolding evaluated_page
        evaluated_page-IsPageOf (err x) e h = cc h
        evaluated_page-IsPageOf (ok evaluated) e h = filter_page-IsPageOf evaluated e _ refl h

      fetched_page-IsPageOf :
          {ct : String} {hs : PageHeaders} (fetched : Result UpstreamError ProjectResponse)
          → cached.0 ≡ fetched
          → (fetched_page S default content_type name now r state (fetched, cached.1)).0
            ≡ page ct payload hs
          → IsPageOf
      unfolding fetched_page
      fetched_page-IsPageOf (err e) g h = cc h
      fetched_page-IsPageOf (ok upstream) g h =
          evaluated_page-IsPageOf upstream g
            (scan_page S r.osv_enabled default name r.advisory_ttl now upstream.payload cached.1).1
            _ refl h

    public_page-IsPageOf :
        (content_type : String) {ct : String} {hs : PageHeaders} (o : Option InForce)
        → in_force s (runtime_of before.decisions) ≡ o
        → (public_page S s default content_type name now before o).0 ≡ page ct payload hs
        → IsPageOf
    unfolding public_page configure_policy
    public_page-IsPageOf content_type none read h = cc h
    public_page-IsPageOf content_type (some r) read h =
        fetched_page-IsPageOf content_type r
          (record before {
            artifacts =
                configure_policy r.osv_enabled r.advisory_ttl (some r.maximum_bytes)
                  before.artifacts;
          })
          read refl refl _ refl h

    owned_page-IsPageOf :
        (content_type : String) {ct : String} {hs : PageHeaders} (catalog : Option PrivateCatalog)
        → (owned_page S content_type name now before catalog (
            public_page S s default content_type name now before
              (in_force s (runtime_of before.decisions)))).0
          ≡ page ct payload hs
        → IsPublic name catalog × IsPageOf
    owned_page-IsPageOf content_type none h = (tt, public_page-IsPageOf content_type _ refl h)
    owned_page-IsPageOf content_type (some catalog) h = elim (Bool-cases (owns catalog name)) [
      | inl k ↦ cc (rw k at h)
      | inr k ↦ (k, public_page-IsPageOf content_type _ refl (rw k at h))
    ]

    negotiated-IsPageOf :
        {ct : String} {hs : PageHeaders} (accepted : Option String)
        → (negotiated S s default name now before accepted).0 ≡ page ct payload hs
        → IsPublic name before.private_catalog × IsPageOf
    negotiated-IsPageOf none h = cc h
    negotiated-IsPageOf (some content_type) h =
        owned_page-IsPageOf content_type before.private_catalog h

  -- A page of the public index answers a normalized name that nobody owns privately; and behind it
  -- stand the settings in force, the metadata from the cache or upstream, its evaluation and the
  -- automatic fallback, such that every file it serves is a file of that metadata which the release
  -- policy admits under the administrators' overrides and the fallback, which can be verified and
  -- fetched, and which is shown with the link of its digest and name.
  pub simple_project-IsPageOf :
      (s : Settings) (default : ℤ) (project : String) (accept : Option String) (now : Clocks)
      (state : State) (content_type : String) (payload : Fields) (headers : PageHeaders)
      → (simple_project S s default project accept now state).0 ≡ page content_type payload headers
      → (project ≡ S.canonical project)
        × IsPublic (S.canonical project) state.private_catalog
        × IsPageOf s default (S.canonical project) now state payload
  unfolding simple_project
  simple_project-IsPageOf s default project accept now state content_type payload headers h =
      elim (Bool-cases (str_eq project (S.canonical project))) [
        | inr k ↦ cc (rw k at h)
        | inl k ↦
            let (free, p) =
              negotiated-IsPageOf s default (S.canonical project) now state payload _ (rw k at h) in
            ((eq_iff project (S.canonical project)).0 k, free, p)
      ]
