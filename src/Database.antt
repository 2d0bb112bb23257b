-- ===== src/Database.antt =====
-- database.py: the catalog in SQLite. A table is a list of rows by primary key. A payload is stored
-- as JSON text and read back; that gives an equal dictionary, so the rows hold the dictionary. Times
-- are exact. Each method is one transaction.
pub mod Keys
use wheelguard.Base.{
  ℕ, ℤ, leb_ℤ, Bool, not, ◌&&◌, String, Option, none, some, List, [], ◌∷◌, map, take, select,
  str_eq, if◌then◌else◌,
}
use wheelguard.Base.Sort.{sort}
use wheelguard.Base.Table.{find, upsert, delete}
use wheelguard.Models.{ProjectResponse, ArtifactRecord, CachedProject, CachedAdvisories}
use wheelguard.Vulnerabilities.{Advisories, text_lt}

-- `PRIMARY KEY (a, b)`
abbrev pub pair_eq : String × String → String × String → Bool
pair_eq (a, b) (c, d) = str_eq a c && str_eq b d

pub record Database : Type 0 where
  pub projects : List (String × CachedProject)
  pub artifacts : List ((String × String) × ArtifactRecord)
  pub advisory_scans : List ((String × String) × CachedAdvisories)
  pub advisory_targets : List (String × ℤ)

abbrev pub empty : Database
empty = record { projects = []; artifacts = []; advisory_scans = []; advisory_targets = [] }

-- A row as `ProjectResponse(payload, last_serial, "HIT")`.
unfoldable pub as_hit : Option CachedProject → Option CachedProject
as_hit none = none
as_hit (some cached) =
    some (record cached { response = record cached.response { cache_status = "HIT" } })

unfoldable pub get_project : Database → String → Option CachedProject
unfolding find as_hit
get_project db name = as_hit (find str_eq name db.projects)

unfoldable pub put_project : Database → String → ProjectResponse → ℤ → Database
unfolding upsert
put_project db name response fetched_at = record db {
  projects =
      upsert str_eq name (record { response = response; fetched_at = fetched_at }) db.projects;
}

-- `SELECT normalized_name FROM projects ORDER BY normalized_name`
unfoldable pub list_projects : Database → List String
unfolding sort
list_projects db = sort text_lt (map (λ row. row.0) db.projects)

unfoldable pub write_artifacts :
    List ArtifactRecord
    → List ((String × String) × ArtifactRecord)
    → List ((String × String) × ArtifactRecord)
unfolding upsert
write_artifacts [] table = table
write_artifacts (r ∷ rs) table = write_artifacts rs (upsert pair_eq (r.sha256, r.filename) r table)

unfoldable pub get_artifact : Database → String → String → Option ArtifactRecord
unfolding find
get_artifact db sha256 filename = find pair_eq (sha256, filename) db.artifacts

unfoldable pub record_advisory_target : Database → String → ℤ → Database
unfolding upsert
record_advisory_target db project requested_at = record db {
  advisory_targets = upsert str_eq project requested_at db.advisory_targets;
}

-- `ORDER BY requested_at DESC`
abbrev pub later : String × ℤ → String × ℤ → Bool
later (p, t) (q, u) = not (leb_ℤ t u)

-- `WHERE requested_at >= ? ORDER BY requested_at DESC LIMIT ?`
unfoldable pub list_advisory_targets : Database → ℤ → ℕ → List String
unfolding sort
list_advisory_targets db requested_since limit =
    map (λ row. row.0)
      (take limit (sort later (select (λ row. leb_ℤ requested_since row.1) db.advisory_targets)))

-- `DELETE FROM advisory_targets WHERE requested_at < ?`
unfoldable pub prune_advisory_targets : Database → ℤ → Database
prune_advisory_targets db requested_before = record db {
  advisory_targets = select (λ row. leb_ℤ requested_before row.1) db.advisory_targets;
}

unfoldable pub delete_advisory_target : Database → String → Database
unfolding delete
delete_advisory_target db project = record db {
  advisory_targets = delete str_eq project db.advisory_targets;
}

unfoldable pub get_advisories : Database → String → String → Option CachedAdvisories
unfolding find
get_advisories db project versions_key = find pair_eq (project, versions_key) db.advisory_scans

-- `WHERE project = ? ORDER BY checked_at DESC LIMIT 1`, the first row of the latest time
unfoldable pub latest :
    String → List ((String × String) × CachedAdvisories) → Option CachedAdvisories
latest project [] = none
latest project ((key, scan) ∷ rows) =
    let rest = latest project rows in
    if str_eq key.0 project
    then elim rest [
      | none ↦ some scan
      | some other ↦ if leb_ℤ other.checked_at scan.checked_at then some scan else some other
    ]
    else rest

unfoldable pub get_latest_advisories : Database → String → Option CachedAdvisories
unfolding latest
get_latest_advisories db project = latest project db.advisory_scans

unfoldable pub put_advisories : Database → String → String → Advisories → ℤ → Database
unfolding upsert
put_advisories db project versions_key advisories checked_at = record db {
  advisory_scans =
      upsert pair_eq (project, versions_key)
        (record { advisories = advisories; checked_at = checked_at }) db.advisory_scans;
}
