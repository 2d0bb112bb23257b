-- ===== src/Artifacts/Service.antt =====
-- artifacts.py: `_authorize`, `configure_policy` and `get_path`.
use wheelguard.Base.{
  ℕ, ℤ, ◌-ℤ◌, leb_ℤ, Bool, ◌&&◌, String, Option, none, some, List, if◌then◌else◌, Result, ok, err,
}
use wheelguard.Artifacts.{Bytes, is_digest, safe_filename}
use wheelguard.Base.Table.{find}
use wheelguard.Database.{Database, get_artifact, get_latest_advisories, pair_eq}
use wheelguard.Models.{ArtifactRecord, CachedAdvisories}
use wheelguard.Platform.{Platform, Urls}
use wheelguard.Policy.{lookup}
use wheelguard.Vulnerabilities.{is_nil}
use wheelguard.Artifacts.Download.{
  ArtifactError, not_found, no_identity, not_evaluated, stale_evaluation, has_advisories, Store,
  Net, download,
}

-- `_authorize`, by what is known: the identifiers of the release, its evaluation, its names.
unfoldable pub judge_ids : ℤ → ℤ → CachedAdvisories → Option (List String) → Option ArtifactError
judge_ids ttl now scan none = some not_evaluated
judge_ids ttl now scan (some ids) =
    if leb_ℤ ttl (now -ℤ scan.checked_at)
    then some stale_evaluation
    else if is_nil ids
    then none
    else some has_advisories

unfoldable pub judge_scan : ℤ → ℤ → String → Option CachedAdvisories → Option ArtifactError
unfolding judge_ids
judge_scan ttl now version none = some not_evaluated
judge_scan ttl now version (some scan) = judge_ids ttl now scan (lookup version scan.advisories)

unfoldable pub judge_release :
    Database → ℤ → ℤ → Option String → Option String → Option ArtifactError
unfolding judge_scan
judge_release db ttl now (some project) (some version) =
    judge_scan ttl now version (get_latest_advisories db project)
judge_release db ttl now _ _ = some no_identity

unfoldable pub authorize : Database → ℤ → ℤ → ArtifactRecord → Option ArtifactError
unfolding judge_release
authorize db ttl now r = judge_release db ttl now r.project r.version

-- The policy values of the service, its limit, and the hosts.
pub record ArtifactService : Type 0 where
  pub maximum_bytes : ℕ
  pub allowed_hosts : List String
  pub enforce_advisories : Bool
  pub advisory_ttl : ℤ

unfoldable pub configure_policy : Bool → ℤ → Option ℕ → ArtifactService → ArtifactService
configure_policy enforce ttl none s = record s { enforce_advisories = enforce; advisory_ttl = ttl }
configure_policy enforce ttl (some n) s = record s {
  enforce_advisories = enforce;
  advisory_ttl = ttl;
  maximum_bytes = n;
}

-- The exception of the policy check, when the service enforces advisories.
unfoldable pub denial : ArtifactService → Database → ℤ → ArtifactRecord → Option ArtifactError
unfolding authorize
denial service db now r =
    if service.enforce_advisories then authorize db service.advisory_ttl now r else none

module _ (P : Platform) (urls : Urls) (hexdigest : Bytes → String) (service : ArtifactService) where
  -- What `get_path` does with a record, by the policy's exception and what the store has.
  unfoldable pub serve :
      ArtifactRecord
      → Option ArtifactError
      → Option Bytes
      → Store
      → Net
      → Result ArtifactError (String × String) × Store × Net
  serve r (some e) cached store net = (err e, store, net)
  serve r none (some _) store net = (ok (r.sha256, r.filename), store, net)
  serve r none none store net =
      download P urls service.allowed_hosts hexdigest service.maximum_bytes r store net

  -- The record that the catalog has, if any.
  unfoldable pub serve_found :
      Database
      → ℤ
      → Option ArtifactRecord
      → Store
      → Net
      → Result ArtifactError (String × String) × Store × Net
  unfolding serve
  serve_found db now none store net = (err not_found, store, net)
  serve_found db now (some r) store net =
      serve r (denial service db now r) (find pair_eq (r.sha256, r.filename) store) store net

  unfoldable pub get_path :
      Database
      → ℤ
      → String
      → String
      → Store
      → Net
      → Result ArtifactError (String × String) × Store × Net
  unfolding serve_found
  get_path db now digest filename store net =
      if is_digest (P.casefold digest) && safe_filename filename
      then serve_found db now (get_artifact db (P.casefold digest) filename) store net
      else (err not_found, store, net)
