-- ===== src/Artifacts/Verified.antt =====
-- The store only ever holds verified bytes.
use wheelguard.Base.{
  ℕ, ℤ, ◌+◌, ◌≤◌, ◌≡◌, refl, ap, ◌∙◌, Bool, true, false, ◌&&◌, String, Option, none, some, List, [],
  ◌∷◌, ◌++◌, length, All, Bool-cases, Option-cases, inl, inr, Result, ok, err, arith, str_eq,
  eq_iff, ltb, length-append,
}
use wheelguard.Base.Table.{find}
use wheelguard.Database.{Database, pair_eq, get_artifact}
use wheelguard.Artifacts.{Bytes, allowed_https_url, is_digest, safe_filename}
use wheelguard.Artifacts.Download.{
  Reply, failed, answer, Net, ArtifactError, Store, receive, expected_digest, commit, publish,
  finish_download, store_reply, stream_allowed, declared_too_large, download, is_success,
}
use wheelguard.Artifacts.Service.{ArtifactService, denial, serve, serve_found, get_path}
use wheelguard.Models.{ArtifactRecord}
use wheelguard.Platform.{Platform, Urls}

-- A received body fits the limit.
receive-le :
    (maximum size : ℕ) (chunks : List Bytes) (broken : Bool) (content : Bytes) {c : Bytes}
    → length content ≡ size
    → size ≤ maximum
    → receive maximum size chunks broken content ≡ ok c
    → length c ≤ maximum
unfolding receive
receive-le maximum size [] true content e l h = cc
receive-le maximum size [] false content {c} e l h =
    let q : content ≡ c = cc in omega (arith, ap length q)
receive-le maximum size (chunk ∷ chunks) broken content e l h =
    elim (Bool-cases (ltb maximum (size + length chunk))) [
      | inl k ↦ cc (rw k at h)
      | inr k ↦
          receive-le maximum (size + length chunk) chunks broken (content ++ chunk)
            (length-append content chunk ∙ ap (λ n. n + length chunk) e) (ground arith) (rw k at h)
    ]

module _ (Known : ArtifactRecord → Type 0) (hexdigest : Bytes → String) (maximum : ℕ) where
  -- A row of the store: there is a known record with this path, whose expected digest is that of
  -- the bytes, which fit the limit.
  abbrev pub IsVerifiedRow : (String × String) × Bytes → Type 0
  IsVerifiedRow (path, content) =
      (r : ArtifactRecord) × Known r
      × (path ≡ (r.sha256, r.filename))
      × (hexdigest content ≡ expected_digest r)
      × (length content ≤ maximum)

  abbrev pub IsVerified : Store → Type 0
  IsVerified = All IsVerifiedRow

  commit-IsVerified :
      (store : Store) (r : ArtifactRecord) (content : Bytes)
      → Known r
      → IsVerified store
      → hexdigest content ≡ expected_digest r
      → length content ≤ maximum
      → IsVerified (commit store r content)
  unfolding commit
  commit-IsVerified store r content known v h l = elim (Bool-cases (str_eq r.filename "..")) [
    | inl d ↦ rw (d, commit) v
    | inr d ↦ elim (Option-cases (find pair_eq (r.sha256, r.filename) store)) [
      | inl n ↦ rw (d, n, commit) ((r, known, refl, h, l), v)
      | inr (c, e) ↦ rw (d, e, commit) v
    ]
  ]

  publish-IsVerified :
      (r : ArtifactRecord) (body : Result ArtifactError Bytes) (store : Store)
      → Known r
      → ((c : Bytes) → body ≡ ok c → length c ≤ maximum)
      → IsVerified store
      → IsVerified (publish hexdigest r body store).1
  unfolding publish
  publish-IsVerified r (err e) store known fits v = v
  publish-IsVerified r (ok content) store known fits v =
      elim (Bool-cases (str_eq (hexdigest content) (expected_digest r))) [
        | inr n ↦ rw n v
        | inl e ↦ rw e (
            commit-IsVerified store r content known v
              ((eq_iff (hexdigest content) (expected_digest r)).0 e) (fits content refl))
      ]

  finish_download-IsVerified :
      (r : ArtifactRecord) (reply : Reply) (store : Store)
      → Known r
      → IsVerified store
      → IsVerified (finish_download hexdigest maximum r reply store).1
  unfolding finish_download
  finish_download-IsVerified r failed store known v = v
  finish_download-IsVerified r (answer status location chunks broken) store known v =
      elim (Bool-cases (is_success status)) [
        | inr n ↦ rw n v
        | inl e ↦ rw e (
            publish-IsVerified r (receive maximum 0 chunks broken []) store known
              (λ c h. receive-le maximum 0 chunks broken [] refl (omega arith) h) v)
      ]

  store_reply-IsVerified :
      (r : ArtifactRecord) (opened : Result ArtifactError Reply) (store : Store)
      → Known r
      → IsVerified store
      → IsVerified (store_reply hexdigest maximum r opened store).1
  unfolding store_reply
  store_reply-IsVerified r (err e) store known v = v
  store_reply-IsVerified r (ok reply) store known v =
      finish_download-IsVerified r reply store known v

  -- A download, whatever its outcome, leaves a store of verified bytes verified.
  pub download-IsVerified :
      (P : Platform) (urls : Urls) (hosts : List String) (r : ArtifactRecord) (store : Store)
      (net : Net)
      → Known r
      → IsVerified store
      → IsVerified (download P urls hosts hexdigest maximum r store net).1
  unfolding download
  download-IsVerified P urls hosts r store net known v =
      elim (Bool-cases (allowed_https_url P urls r.source_url hosts)) [
        | inr h ↦ rw h v
        | inl h ↦ elim (Bool-cases (declared_too_large maximum r)) [
          | inl k ↦ rw (h, k) v
          | inr k ↦
              rw (h, k)
                (store_reply-IsVerified r (stream_allowed P urls hosts 6 r.source_url net).0 store
                  known v)
        ]
      ]

module _ (Known : ArtifactRecord → Type 0) (P : Platform) (urls : Urls) (hexdigest : Bytes → String)
    (service : ArtifactService) where
  serve-IsVerified :
      (r : ArtifactRecord) (denied : Option ArtifactError) (cached : Option Bytes) (store : Store)
      (net : Net)
      → Known r
      → IsVerified Known hexdigest service.maximum_bytes store
      → IsVerified Known hexdigest service.maximum_bytes
          (serve P urls hexdigest service r denied cached store net).1
  unfolding serve
  serve-IsVerified r (some e) cached store net known v = v
  serve-IsVerified r none (some c) store net known v = v
  serve-IsVerified r none none store net known v =
      download-IsVerified Known hexdigest service.maximum_bytes P urls service.allowed_hosts r store
        net known v

  serve_found-IsVerified :
      (db : Database) (now : ℤ) (found : Option ArtifactRecord) (store : Store) (net : Net)
      → ((r : ArtifactRecord) → found ≡ some r → Known r)
      → IsVerified Known hexdigest service.maximum_bytes store
      → IsVerified Known hexdigest service.maximum_bytes
          (serve_found P urls hexdigest service db now found store net).1
  unfolding serve_found
  serve_found-IsVerified db now none store net known v = v
  serve_found-IsVerified db now (some r) store net known v =
      serve-IsVerified r (denial service db now r) (find pair_eq (r.sha256, r.filename) store) store
        net (known r refl) v

  -- Let every record of the catalog be known. When each file of the store has the digest that a
  -- known record of its path expects and fits the limit, the same holds of the store after
  -- `get_path`, whether it returns or raises.
  pub get_path-IsVerified :
      (db : Database) (now : ℤ) (digest filename : String) (store : Store) (net : Net)
      → ((d n : String) (r : ArtifactRecord) → get_artifact db d n ≡ some r → Known r)
      → IsVerified Known hexdigest service.maximum_bytes store
      → IsVerified Known hexdigest service.maximum_bytes
          (get_path P urls hexdigest service db now digest filename store net).1
  unfolding get_path
  get_path-IsVerified db now digest filename store net known v =
      elim (Bool-cases (is_digest (P.casefold digest) && safe_filename filename)) [
        | inr n ↦ rw n v
        | inl y ↦ rw y (
            serve_found-IsVerified db now (get_artifact db (P.casefold digest) filename) store net
              (known (P.casefold digest) filename) v)
      ]
