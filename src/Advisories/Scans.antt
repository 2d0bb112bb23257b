-- ===== src/Advisories/Scans.antt =====
-- `OsvAdvisoryPolicy.apply` over the scans that the catalog keeps.
use wheelguard.Base.{
  ℤ, ◌-ℤ◌, ◌≤ℤ◌, leb_ℤ, le→leb_ℤ, ◌≡◌, refl, ◌∙◌, ◌≢◌, false, String, some, List, inl, inr,
  Bool-cases, Option-cases, ok, err,
}
use wheelguard.Base.Table.{find-upsert}
use wheelguard.Advisories.{
  OsvReply, QueryError, http_error, invalid_response, not_json, query_versions, scanned_versions,
  apply_scan, conclude, answer_or_query, evaluate,
}
use wheelguard.Database.Keys.{pair_eq_refl, pair_eq_iff}
use wheelguard.Database.{Database, pair_eq, get_advisories, put_advisories}
use wheelguard.Json.{Fields}
use wheelguard.Models.{CachedAdvisories}
use wheelguard.Platform.{Platform}
use wheelguard.Vulnerabilities.{Advisories, is_nil}

-- `get_advisories` after `put_advisories` with the same project and versions.
pub get_advisories-put_advisories :
    (db : Database) (project key : String) (m : Advisories) (t : ℤ)
    → get_advisories (put_advisories db project key m t) project key
      ≡ some (record { advisories = m; checked_at = t })
unfolding get_advisories put_advisories
get_advisories-put_advisories db project key m t =
    find-upsert pair_eq pair_eq_iff (project, key) (project, key)
      (record { advisories = m; checked_at = t }) db.advisory_scans
    ∙ rw (pair_eq_refl (project, key))

module _ (P : Platform) (osv : String → List String → OsvReply)
    (versions_key : List String → String) (db : Database) (project : String) (ttl now : ℤ)
    (payload : Fields) where
  abbrev pub key : String
  key = versions_key (scanned_versions P payload)

  abbrev pub HasVersions : Type 0
  HasVersions = is_nil (scanned_versions P payload) ≡ false

  -- A cached scan, if there is one, is past the lifetime.
  abbrev pub IsOverdue : Type 0
  IsOverdue =
      (c : CachedAdvisories)
      → get_advisories db project key ≡ some c
      → leb_ℤ (now -ℤ c.checked_at) ttl ≡ false

  evaluates :
      HasVersions
      → evaluate P osv versions_key db project ttl now payload
        ≡ answer_or_query P osv versions_key db project
            (scanned_versions P payload)
            ttl
            now
            payload
            (get_advisories db project key)
  unfolding evaluate
  evaluates h = rw h

  queries :
      HasVersions
      → IsOverdue
      → evaluate P osv versions_key db project ttl now payload
        ≡ conclude P db project key now payload
            (get_advisories db project key)
            (query_versions osv project (scanned_versions P payload))
  unfolding answer_or_query
  queries h n = evaluates h ∙ elim (Option-cases (get_advisories db project key)) [
    | inl e ↦ rw e
    | inr (c, e) ↦ rw (e, n c e)
  ]

  -- A scan that is within its lifetime answers without a request.
  pub evaluate_hit :
      (c : CachedAdvisories)
      → HasVersions
      → get_advisories db project key ≡ some c
      → now -ℤ c.checked_at ≤ℤ ttl
      → evaluate P osv versions_key db project ttl now payload
        ≡ (ok (apply_scan P payload c.advisories "HIT"), db)
  unfolding answer_or_query
  evaluate_hit c h e l = evaluates h ∙ rw (e, le→leb_ℤ (now -ℤ c.checked_at) ttl l)

  -- With a scan in the catalog for the versions of a payload that has some, and a query that fails
  -- other than by a body that is no JSON, the payload gets the marks of the scan, under some
  -- status, and the catalog stays as it was.
  pub marked_in_outage :
      (c : CachedAdvisories) (e : QueryError)
      → HasVersions
      → get_advisories db project key ≡ some c
      → query_versions osv project (scanned_versions P payload) ≡ err e
      → e ≢ not_json
      → (status : String) × (evaluate P osv versions_key db project ttl now payload
          ≡ (ok (apply_scan P payload c.advisories status), db))
  unfolding answer_or_query conclude
  marked_in_outage c e h g q n = elim (Bool-cases (leb_ℤ (now -ℤ c.checked_at) ttl)) [
    | inl k ↦ ("HIT", evaluates h ∙ rw (g, k))
    | inr k ↦ ("STALE", evaluates h ∙ rw (g, k, q) (stale e n))
  ]
    where
      stale :
          (e : QueryError)
          → e ≢ not_json
          → conclude P db project key now payload (some c) (err e)
            ≡ (ok (apply_scan P payload c.advisories "STALE"), db)
      stale http_error n = refl
      stale invalid_response n = refl
      stale not_json n = absurd (n refl)

module _ (P : Platform) (versions_key : List String → String) (db : Database) (project : String)
    (ttl now : ℤ) (payload : Fields) where
  -- When no scan of the payload's versions is current and the query succeeds, the payload is marked
  -- by its results, as a miss, and then from the catalog, with the same marks, until the scan's
  -- lifetime ends, whatever OSV says by then.
  pub hit_after_scan :
      (osv osv' : String → List String → OsvReply) (later : ℤ) (m : Advisories)
      → HasVersions P osv versions_key db project ttl now payload
      → IsOverdue P osv versions_key db project ttl now payload
      → query_versions osv project (scanned_versions P payload) ≡ ok m
      → later -ℤ now ≤ℤ ttl
      → ((evaluate P osv versions_key db project ttl now payload).0
          ≡ ok (apply_scan P payload m "MISS"))
        × (evaluate P osv' versions_key
              (evaluate P osv versions_key db project ttl now payload).1
              project
              ttl
              later
              payload
            ≡ (
              ok (apply_scan P payload m "HIT"),
              (evaluate P osv versions_key db project ttl now payload).1,
            ))
  unfolding conclude
  hit_after_scan osv osv' later m h n q l =
      let e = queries P osv versions_key db project ttl now payload h n ∙ rw q in
      rw e (
        refl,
        evaluate_hit P osv' versions_key
            (put_advisories db project (versions_key (scanned_versions P payload)) m now) project
            ttl later payload _ h
            (get_advisories-put_advisories db project (versions_key (scanned_versions P payload)) m
              now)
            l,
      )
