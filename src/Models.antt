-- ===== src/Models.antt =====
-- models.py and the records of database.py: what the components exchange.
use wheelguard.Base.{ℕ, ℤ, String, Option}
use wheelguard.Json.{Fields}
use wheelguard.Vulnerabilities.{Advisories}

pub record ProjectResponse : Type 0 where
  pub payload : Fields
  pub last_serial : Option String
  pub cache_status : String

pub record ArtifactRecord : Type 0 where
  pub sha256 : String
  pub filename : String
  pub source_url : String
  pub size : Option ℤ
  pub project : Option String
  pub version : Option String
  pub verification_sha256 : Option String

pub record AdvisoryResult : Type 0 where
  pub payload : Fields
  pub status : String
  pub vulnerable_files : ℕ

pub record CachedProject : Type 0 where
  pub response : ProjectResponse
  pub fetched_at : ℤ

pub record CachedAdvisories : Type 0 where
  pub advisories : Advisories
  pub checked_at : ℤ
