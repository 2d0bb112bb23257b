-- ===== src/Cache.antt =====
-- cache.py: project metadata from the catalog while it is fresh, from upstream otherwise, and from
-- the catalog again when upstream fails.
pub mod Outage
use wheelguard.Base.{
  ℤ, pos, negsuc, suc, ◌-ℤ◌, leb_ℤ, Bool, String, Option, none, some, if◌then◌else◌, Result, ok,
  err,
}
use wheelguard.Database.{Database, get_project, put_project}
use wheelguard.Models.{ProjectResponse, CachedProject}

-- `UpstreamNotFoundError` and `UpstreamRepositoryError`
pub data UpstreamError : Type 0 where
  not_found repository : UpstreamError

-- `self._upstream.get_project`
abbrev pub Upstream : Type 0
Upstream = String → Result UpstreamError ProjectResponse

-- The request upstream, and what its outcome writes.
unfoldable pub refetch :
    Database
    → String
    → ℤ
    → Option CachedProject
    → Result UpstreamError ProjectResponse
    → Result UpstreamError ProjectResponse × Database
refetch db name now cached (ok fresh) =
    (ok (record fresh { cache_status = "MISS" }), put_project db name fresh now)
refetch db name now none (err e) = (err e, db)
refetch db name now (some cached) (err e) =
    (ok (record cached.response { cache_status = "STALE" }), db)

-- `get_project`, with the lifetime that is in force.
unfoldable pub serve_within :
    Upstream → ℤ → Database → String → ℤ → Result UpstreamError ProjectResponse × Database
unfolding refetch
serve_within upstream ttl db name now = elim (get_project db name) [
  | none ↦ refetch db name now none (upstream name)
  | some cached ↦
      if leb_ℤ (now -ℤ cached.fetched_at) ttl
      then (ok cached.response, db)
      else refetch db name now (some cached) (upstream name)
]

-- `ttl or self._ttl`: a lifetime of zero counts as none
unfoldable pub lifetime : Option ℤ → ℤ → ℤ
lifetime (some (pos (suc n))) default = pos (suc n)
lifetime (some (negsuc n)) default = negsuc n
lifetime _ default = default

unfoldable pub get_project_cached :
    Upstream
    → ℤ
    → Database
    → String
    → Option ℤ
    → ℤ
    → Result UpstreamError ProjectResponse × Database
unfolding serve_within lifetime
get_project_cached upstream default db name ttl now =
    serve_within upstream (lifetime ttl default) db name now
