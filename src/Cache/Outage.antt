-- ===== src/Cache/Outage.antt =====
-- What the cache answers while upstream is down, and after a fetch.
use wheelguard.Base.{
  ℤ, ◌-ℤ◌, ◌≤ℤ◌, leb_ℤ, le→leb_ℤ, leb_ℤ→le, ◌≡◌, refl, ap, ◌∙◌, Bool, true, false, String, some,
  if◌then◌else◌, ok, err, Bool-cases, Option-cases, inl, inr, str_eq, eq_iff,
}
use wheelguard.Base.Table.{find, find-upsert}
use wheelguard.Cache.{UpstreamError, Upstream, refetch, serve_within}
use wheelguard.Database.{Database, as_hit, get_project, put_project}
use wheelguard.Models.{ProjectResponse, CachedProject}

-- `get_project` after `put_project`: the stored answer, marked as a hit; other rows as before.
pub get_project-put_project :
    (db : Database) (name other : String) (r : ProjectResponse) (t : ℤ)
    → get_project (put_project db name r t) other ≡ (
        if str_eq name other
        then some (record { response = record r { cache_status = "HIT" }; fetched_at = t })
        else get_project db other)
unfolding get_project put_project as_hit
get_project-put_project db name other r t =
    ap as_hit
      (find-upsert str_eq eq_iff name other (record { response = r; fetched_at = t }) db.projects)
    ∙ choose (str_eq name other)
  where
    choose :
        (b : Bool)
        → as_hit (
            if b
            then some (record { response = r; fetched_at = t })
            else find str_eq other db.projects)
          ≡ (if b
              then some (record { response = record r { cache_status = "HIT" }; fetched_at = t })
              else as_hit (find str_eq other db.projects))
    choose true = refl
    choose false = refl

-- There is no cached answer that is fresh.
abbrev pub NotFresh : ℤ → Database → String → ℤ → Type 0
NotFresh ttl db name now =
    (c : CachedProject) → get_project db name ≡ some c → ¬ (now -ℤ c.fetched_at ≤ℤ ttl)

not_fresh : (a ttl : ℤ) → ¬ (a ≤ℤ ttl) → leb_ℤ a ttl ≡ false
not_fresh a ttl n = elim (Bool-cases (leb_ℤ a ttl)) [
  | inl h ↦ absurd (n (leb_ℤ→le a ttl h))
  | inr h ↦ h
]

fetches :
    (upstream : Upstream) (ttl : ℤ) (db : Database) (name : String) (now : ℤ)
    → NotFresh ttl db name now
    → serve_within upstream ttl db name now
      ≡ refetch db name now (get_project db name) (upstream name)
unfolding serve_within
fetches upstream ttl db name now n = elim (Option-cases (get_project db name)) [
  | inl e ↦ rw (e, serve_within)
  | inr (c, e) ↦ rw (e, serve_within, not_fresh (now -ℤ c.fetched_at) ttl (n c e))
]

fetched :
    (upstream : Upstream) (ttl : ℤ) (db : Database) (name : String) (now : ℤ)
    (fresh : ProjectResponse)
    → NotFresh ttl db name now
    → upstream name ≡ ok fresh
    → serve_within upstream ttl db name now
      ≡ (ok (record fresh { cache_status = "MISS" }), put_project db name fresh now)
unfolding refetch
fetched upstream ttl db name now fresh n u = fetches upstream ttl db name now n ∙ rw u

hits :
    (upstream : Upstream) (ttl : ℤ) (db : Database) (name : String) (now : ℤ) (c : CachedProject)
    → get_project db name ≡ some c
    → now -ℤ c.fetched_at ≤ℤ ttl
    → serve_within upstream ttl db name now ≡ (ok c.response, db)
unfolding serve_within
hits upstream ttl db name now c h l = rw (h, serve_within, le→leb_ℤ (now -ℤ c.fetched_at) ttl l)

-- When nothing fresh is cached and upstream answers, the answer is served as a miss, and then from
-- the catalog, as a hit, until its lifetime ends, whatever upstream answers by then.
pub hit_after_fetch :
    (upstream upstream' : Upstream) (ttl : ℤ) (db : Database) (name : String) (now later : ℤ)
    (fresh : ProjectResponse)
    → NotFresh ttl db name now
    → upstream name ≡ ok fresh
    → later -ℤ now ≤ℤ ttl
    → let (first, db') = serve_within upstream ttl db name now in
      (first ≡ ok (record fresh { cache_status = "MISS" }))
      × (serve_within upstream' ttl db' name later
          ≡ (ok (record fresh { cache_status = "HIT" }), db'))
hit_after_fetch upstream upstream' ttl db name now later fresh n u l =
    let q = fetched upstream ttl db name now fresh n u in
    rw q (
      refl,
      hits upstream' ttl (put_project db name fresh now) name later _
          (get_project-put_project db name name fresh now ∙ rw ((eq_iff name name).1 refl)) l,
    )

-- With an answer in the catalog and an upstream that fails, the cached answer is served under some
-- cache status, and the catalog stays as it was.
pub served_in_outage :
    (upstream : Upstream) (ttl : ℤ) (db : Database) (name : String) (now : ℤ)
    (cached : CachedProject) (e : UpstreamError)
    → get_project db name ≡ some cached
    → upstream name ≡ err e
    → (status : String) × (serve_within upstream ttl db name now
        ≡ (ok (record cached.response { cache_status = status }), db))
unfolding serve_within refetch
served_in_outage upstream ttl db name now cached e h u =
    elim (Bool-cases (leb_ℤ (now -ℤ cached.fetched_at) ttl)) [
      | inl k ↦ (cached.response.cache_status, rw (h, serve_within, k))
      | inr k ↦ ("STALE", rw (h, serve_within, k, u))
    ]
