-- ===== src/Artifacts/Outcome.antt =====
-- What `get_path` answers: a path that the store has, the directory of the name `..`, or an exception
-- that leaves the store alone.
use wheelguard.Base.{
  ℕ, ℤ, ◌-ℤ◌, leb_ℤ, ◌≤ℤ◌, le→leb_ℤ, leb_ℤ→le, ◌≡◌, refl, ap, ◌∙◌, true, false, ◌&&◌, String,
  Option, none, some, List, [], ◌∷◌, Bool-cases, Option-cases, inl, inr, ◌↔◌, if◌then◌else◌, Result,
  ok, err, str_eq, eq_iff,
}
use wheelguard.Base.Table.{find}
use wheelguard.Database.{Database, pair_eq, get_artifact, get_latest_advisories}
use wheelguard.Artifacts.{Bytes, allowed_https_url, is_digest, safe_filename}
use wheelguard.Artifacts.Download.{
  Reply, failed, answer, Net, ArtifactError, Store, receive, expected_digest, commit, publish,
  finish_download, store_reply, declared_too_large, download, is_success, stream_allowed,
}
use wheelguard.Artifacts.Service.{
  ArtifactService, judge_ids, judge_scan, judge_release, authorize, denial, serve, serve_found,
  get_path,
}
use wheelguard.Models.{ArtifactRecord, CachedAdvisories}
use wheelguard.Platform.{Platform, Urls}
use wheelguard.Policy.{lookup}
use wheelguard.Vulnerabilities.{is_nil}

pub data Settled (store : Store) : Result ArtifactError (String × String) → Store → Type 0 where
  served :
      {key : String × String} {store' : Store} (content : Bytes)
      → find pair_eq key store' ≡ some content
      → Settled store (ok key) store'
  directory : {key : String × String} → key.1 ≡ ".." → Settled store (ok key) store
  refused : {e : ArtifactError} → Settled store (err e) store

pair_eq_refl : (k : String × String) → pair_eq k k ≡ true
pair_eq_refl (a, b) = rw ((eq_iff a a).1 refl, (eq_iff b b).1 refl)

publish-Settled :
    (hexdigest : Bytes → String) (r : ArtifactRecord) (body : Result ArtifactError Bytes)
    (store : Store)
    → Settled store (publish hexdigest r body store).0 (publish hexdigest r body store).1
unfolding publish
publish-Settled hexdigest r (err e) store = refused
publish-Settled hexdigest r (ok content) store =
    elim (Bool-cases (str_eq (hexdigest content) (expected_digest r))) [
      | inr n ↦ rw n refused
      | inl e ↦ rw e (elim (Bool-cases (str_eq r.filename "..")) [
        | inl d ↦ rw (d, commit) (directory ((eq_iff r.filename "..").0 d))
        | inr d ↦ elim (Option-cases (find pair_eq (r.sha256, r.filename) store)) [
          | inl n ↦
              served content (rw (d, n, commit, find) (rw (pair_eq_refl (r.sha256, r.filename))))
          | inr (c, k) ↦ served c (rw (d, k, commit) k)
        ]
      ])
    ]

finish_download-Settled :
    (hexdigest : Bytes → String) (maximum : ℕ) (r : ArtifactRecord) (reply : Reply) (store : Store)
    → Settled store
        (finish_download hexdigest maximum r reply store).0
        (finish_download hexdigest maximum r reply store).1
unfolding finish_download
finish_download-Settled hexdigest maximum r failed store = refused
finish_download-Settled hexdigest maximum r (answer status location chunks broken) store =
    elim (Bool-cases (is_success status)) [
      | inr n ↦ rw n refused
      | inl e ↦ rw e (publish-Settled hexdigest r (receive maximum 0 chunks broken []) store)
    ]

store_reply-Settled :
    (hexdigest : Bytes → String) (maximum : ℕ) (r : ArtifactRecord)
    (opened : Result ArtifactError Reply) (store : Store)
    → Settled store
        (store_reply hexdigest maximum r opened store).0
        (store_reply hexdigest maximum r opened store).1
unfolding store_reply
store_reply-Settled hexdigest maximum r (err e) store = refused
store_reply-Settled hexdigest maximum r (ok reply) store =
    finish_download-Settled hexdigest maximum r reply store

module _ (P : Platform) (urls : Urls) (hexdigest : Bytes → String) (service : ArtifactService) where
  download-Settled :
      (r : ArtifactRecord) (store : Store) (net : Net)
      → Settled store
          (download P urls service.allowed_hosts hexdigest service.maximum_bytes r store net).0
          (download P urls service.allowed_hosts hexdigest service.maximum_bytes r store net).1
  unfolding download
  download-Settled r store net =
      elim (Bool-cases (allowed_https_url P urls r.source_url service.allowed_hosts)) [
        | inr h ↦ rw h refused
        | inl h ↦ elim (Bool-cases (declared_too_large service.maximum_bytes r)) [
          | inl k ↦ rw (h, k) refused
          | inr k ↦
              rw (h, k)
                (store_reply-Settled hexdigest service.maximum_bytes r
                  (stream_allowed P urls service.allowed_hosts 6 r.source_url net).0 store)
        ]
      ]

  serve-Settled :
      (r : ArtifactRecord) (denied : Option ArtifactError) (cached : Option Bytes) (store : Store)
      (net : Net)
      → find pair_eq (r.sha256, r.filename) store ≡ cached
      → Settled store
          (serve P urls hexdigest service r denied cached store net).0
          (serve P urls hexdigest service r denied cached store net).1
  unfolding serve
  serve-Settled r (some e) cached store net h = refused
  serve-Settled r none (some c) store net h = served c h
  serve-Settled r none none store net h = download-Settled r store net

  serve_found-Settled :
      (db : Database) (now : ℤ) (found : Option ArtifactRecord) (store : Store) (net : Net)
      → Settled store
          (serve_found P urls hexdigest service db now found store net).0
          (serve_found P urls hexdigest service db now found store net).1
  unfolding serve_found
  serve_found-Settled db now none store net = refused
  serve_found-Settled db now (some r) store net =
      serve-Settled r (denial service db now r) _ store net refl

  -- A path that is returned is in the store, unless its file name is `..`, for which nothing may be
  -- stored; an exception leaves the store as it was.
  pub get_path-Settled :
      (db : Database) (now : ℤ) (digest filename : String) (store : Store) (net : Net)
      → Settled store
          (get_path P urls hexdigest service db now digest filename store net).0
          (get_path P urls hexdigest service db now digest filename store net).1
  unfolding get_path
  get_path-Settled db now digest filename store net =
      elim (Bool-cases (is_digest (P.casefold digest) && safe_filename filename)) [
        | inr n ↦ rw n refused
        | inl y ↦
            rw y
              (serve_found-Settled db now (get_artifact db (P.casefold digest) filename) store net)
      ]

-- The release of an artifact has a recent evaluation without findings.
pub record IsCleared (db : Database) (ttl now : ℤ) (r : ArtifactRecord) : Type 0 where
  pub project : String
  pub version : String
  pub of_project : r.project ≡ some project
  pub of_version : r.version ≡ some version
  pub scan : CachedAdvisories
  pub evaluated : get_latest_advisories db project ≡ some scan
  pub recent : ¬ (ttl ≤ℤ now -ℤ scan.checked_at)
  pub clean : lookup version scan.advisories ≡ some []

module _ (db : Database) (ttl now : ℤ) (r : ArtifactRecord) where
  IsCleared-ids :
      (project version : String) (scan : CachedAdvisories) (ids : Option (List String))
      → r.project ≡ some project
      → r.version ≡ some version
      → get_latest_advisories db project ≡ some scan
      → lookup version scan.advisories ≡ ids
      → judge_ids ttl now scan ids ≡ none
      → IsCleared db ttl now r
  unfolding judge_ids
  IsCleared-ids project version scan none p v s l h = cc
  IsCleared-ids project version scan (some ids) p v s l h =
      elim (Bool-cases (leb_ℤ ttl (now -ℤ scan.checked_at))) [
        | inl k ↦ cc (rw k at h)
        | inr k ↦ record {
          project = project;
          version = version;
          of_project = p;
          of_version = v;
          scan = scan;
          evaluated = s;
          recent = λ le. cc (k, le→leb_ℤ ttl (now -ℤ scan.checked_at) le);
          clean = l ∙ ap some (no_ids ids (rw k at h));
        }
      ]
    where
      no_ids :
          (ids : List String)
          → (if is_nil ids then none else some ArtifactError.has_advisories) ≡ none
          → ids ≡ []
      no_ids [] h = refl
      no_ids (i ∷ is) h = cc

  IsCleared-scan :
      (project version : String) (scan : Option CachedAdvisories)
      → r.project ≡ some project
      → r.version ≡ some version
      → get_latest_advisories db project ≡ scan
      → judge_scan ttl now version scan ≡ none
      → IsCleared db ttl now r
  unfolding judge_scan
  IsCleared-scan project version none p v s h = cc
  IsCleared-scan project version (some scan) p v s h =
      IsCleared-ids project version scan (lookup version scan.advisories) p v s refl h

  IsCleared-release :
      (project version : Option String)
      → r.project ≡ project
      → r.version ≡ version
      → judge_release db ttl now project version ≡ none
      → IsCleared db ttl now r
  unfolding judge_release
  IsCleared-release (some project) (some version) p v h =
      IsCleared-scan project version (get_latest_advisories db project) p v refl h
  IsCleared-release none version p v h = cc
  IsCleared-release (some project) none p v h = cc

  authorized : IsCleared db ttl now r → authorize db ttl now r ≡ none
  unfolding authorize judge_release judge_scan judge_ids
  authorized c = rw (
    c.of_project,
    c.of_version,
    c.evaluated,
    c.clean,
    judge_release,
    judge_scan,
    not_due c.scan c.recent,
  )
    where
      not_due :
          (s : CachedAdvisories)
          → ¬ (ttl ≤ℤ now -ℤ s.checked_at)
          → leb_ℤ ttl (now -ℤ s.checked_at) ≡ false
      not_due s n = elim (Bool-cases (leb_ℤ ttl (now -ℤ s.checked_at))) [
        | inl h ↦ absurd (n (leb_ℤ→le ttl (now -ℤ s.checked_at) h))
        | inr h ↦ h
      ]

  -- The policy check passes exactly for a release with a recent evaluation that finds nothing: a
  -- missing identity, a missing or stale evaluation and an advisory all deny.
  pub authorize_iff : (authorize db ttl now r ≡ none) ↔ IsCleared db ttl now r
  authorize_iff =
      (λ h. IsCleared-release r.project r.version refl refl (unfold authorize in h), authorized)
