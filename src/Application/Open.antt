-- ===== src/Application/Open.antt =====
-- The replies of the public index are no private pages.
use wheelguard.Application.{
  InForce, Reply, private_page, registered, linked, publish_page, filter_page, evaluated_page,
  fetched_page, public_page, Clocks, Settings, State, PageHeaders, Services,
}
use wheelguard.Base.{Bool, Result, ok, err, ℤ, String, Option, none, some, List}
use wheelguard.Advisories.{QueryError}
use wheelguard.Artifacts.Service.{configure_policy}
use wheelguard.Cache.{UpstreamError}
use wheelguard.Database.{Database}
use wheelguard.Models.{ProjectResponse, AdvisoryResult}
use wheelguard.Policy.{PolicyError, PolicyResult}
use wheelguard.Json.{Json, Fields}
use wheelguard.Policy.Release.{Overrides}

-- A reply that is no private page.
abbrev pub IsOpen : Reply → Type 0
IsOpen (private_page content_type payload) = ⊥
IsOpen _ = Unit

module _ (S : Services) (content_type name : String) where
  registered-IsOpen :
      (headers : PageHeaders) (state : State) (payload : Fields) (o : Option Database)
      → IsOpen (registered S name headers state payload o content_type).0
  registered-IsOpen headers state payload none = tt
  registered-IsOpen headers state payload (some db) = tt

  linked-IsOpen :
      (headers : PageHeaders) (state : State) (links : Fields × Option (List Json))
      → IsOpen (linked S content_type name headers state links).0
  linked-IsOpen headers state (payload, none) = tt
  linked-IsOpen headers state (payload, some files) = registered-IsOpen headers state payload _

  publish_page-IsOpen :
      (upstream : ProjectResponse) (evaluated : AdvisoryResult) (fallback : Bool) (state : State)
      (o : Result PolicyError PolicyResult)
      → IsOpen (publish_page S content_type name upstream evaluated fallback state o).0
  unfolding publish_page
  publish_page-IsOpen upstream evaluated fallback state (err e) = tt
  publish_page-IsOpen upstream evaluated fallback state (ok filtered) = linked-IsOpen _ state _

  filter_page-IsOpen :
      (now : ℤ) (r : InForce) (upstream : ProjectResponse) (evaluated : AdvisoryResult)
      (state : State) (o : Result PolicyError Overrides)
      → IsOpen (filter_page S content_type name now r upstream evaluated state o).0
  unfolding filter_page
  filter_page-IsOpen now r upstream evaluated state (err e) = tt
  filter_page-IsOpen now r upstream evaluated state (ok automatic) =
      publish_page-IsOpen upstream evaluated _ state _

  evaluated_page-IsOpen :
      (now : ℤ) (r : InForce) (upstream : ProjectResponse) (state : State)
      (o : Result QueryError AdvisoryResult)
      → IsOpen (evaluated_page S content_type name now r upstream state o).0
  unfolding evaluated_page
  evaluated_page-IsOpen now r upstream state (err e) = tt
  evaluated_page-IsOpen now r upstream state (ok evaluated) =
      filter_page-IsOpen now r upstream evaluated state _

  fetched_page-IsOpen :
      (default : ℤ) (now : Clocks) (r : InForce) (state : State)
      (o : Result UpstreamError ProjectResponse × Database)
      → IsOpen (fetched_page S default content_type name now r state o).0
  unfolding fetched_page
  fetched_page-IsOpen default now r state (err e, db) = tt
  fetched_page-IsOpen default now r state (ok upstream, db) =
      evaluated_page-IsOpen now.requested_at r upstream _ _

  pub public_page-IsOpen :
      (s : Settings) (default : ℤ) (now : Clocks) (state : State) (o : Option InForce)
      → IsOpen (public_page S s default content_type name now state o).0
  unfolding public_page
  public_page-IsOpen s default now state none = tt
  public_page-IsOpen s default now state (some r) =
      fetched_page-IsOpen default now r
        (record state {
          artifacts =
              configure_policy r.osv_enabled r.advisory_ttl (some r.maximum_bytes) state.artifacts;
        })
        _
