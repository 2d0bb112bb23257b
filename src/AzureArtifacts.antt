-- ===== src/AzureArtifacts.antt =====
-- azure_artifacts.py: the artifact service on a blob container, over the catalog, the private
-- projects and the overrides. The container is a table of objects by key; it answers each part of a
-- transfer, and its completion, by the next outcome of a list. The lock is left out: one request
-- runs at a time, and what was stored is read back.
pub mod Authorized
use Prim.Native.String.{[] as empty_text, ◌∷◌ as text_cons}
use wheelguard.Administration.{Decisions, active_overrides}
use wheelguard.Artifacts.{Bytes, is_digest, safe_filename, allowed_https_url}
use wheelguard.Artifacts.Download.{
  ArtifactError, not_found, too_large, checksum, download_failed, source_not_allowed, no_location,
  redirect_limit, Reply, failed, answer, Net, is_success, expected_digest, stream_allowed,
}
use wheelguard.Artifacts.Service.{ArtifactService, authorize}
use wheelguard.Base.{
  ℕ, zero, suc, ℤ, ◌+◌, ltb, length, Bool, true, false, not, ◌&&◌, String, ◌<>◌, Option, none, some,
  List, [], ◌∷◌, ◌++◌, is_some, str_eq, if◌then◌else◌, Result, ok, err,
}
use wheelguard.Base.Table.{find, upsert}
use wheelguard.Database.{Database, get_artifact}
use wheelguard.Models.{ArtifactRecord}
use wheelguard.Ownership.{PrivateCatalog}
use wheelguard.Platform.{Platform, Urls}
use wheelguard.Policy.{lookup, action_is}
use wheelguard.Publication.{Objects, owns}

-- `ArtifactPolicyDeniedError` of the owner and of an override, and the errors of the service.
pub data StreamError : Type 0 where
  privately_owned blocked : StreamError
  service_error : ArtifactError → StreamError

abbrev pub text_take : ℕ → String → String
text_take zero s = ""
text_take (suc n) empty_text = ""
text_take (suc n) (text_cons c s) = text_cons c (text_take n s)

abbrev pub text_drop : ℕ → String → String
text_drop zero s = s
text_drop (suc n) empty_text = ""
text_drop (suc n) (text_cons c s) = text_drop n s

-- `_key`
unfoldable pub blob_key : ArtifactRecord → String
blob_key r =
    "public/sha256/"
    <> text_take 2 r.sha256
    <> "/"
    <> text_take 2 (text_drop 2 r.sha256)
    <> "/"
    <> r.sha256
    <> "/"
    <> r.filename

-- What the service reads besides its own catalog.
pub record Catalogs : Type 0 where
  pub database : Database
  pub private_catalog : PrivateCatalog
  pub decisions : Decisions

-- The action of an override of the record's release; a record without a release has none.
abbrev pub release_action : Catalogs → ℤ → Option String → Option String → Option String
release_action c now (some project) (some version) =
    lookup version (active_overrides c.decisions project now)
release_action c now _ _ = none

-- Whether the record's release is of a project with an owner. Only a record with both a project and
-- a version is looked up.
abbrev pub has_owned_release : Catalogs → Option String → Option String → Bool
has_owned_release c (some project) (some version) = owns c.private_catalog project
has_owned_release c _ _ = false

abbrev pub as_error : Option ArtifactError → Option StreamError
as_error none = none
as_error (some e) = some (service_error e)

-- Why a record is not served, by the action of its override.
unfoldable pub stream_denial :
    ArtifactService → Catalogs → ℤ → ArtifactRecord → Option String → Option StreamError
unfolding owns authorize
stream_denial service c now r action =
    if has_owned_release c r.project r.version
    then some privately_owned
    else if action_is "block" action
    then some blocked
    else if service.enforce_advisories && not (action_is "allow" action)
    then as_error (authorize c.database service.advisory_ttl now r)
    else none

-- The loop over the chunks: the bytes, and the outcomes that are left.
unfoldable pub stage_chunks :
    ℕ → ℕ → List Bytes → Bool → List Bool → Bytes → Result ArtifactError (Bytes × List Bool)
stage_chunks maximum size [] true outcomes content = err download_failed
stage_chunks maximum size [] false outcomes content = ok (content, outcomes)
stage_chunks maximum size (chunk ∷ chunks) broken [] content =
    if ltb maximum (size + length chunk) then err too_large else err download_failed
stage_chunks maximum size (chunk ∷ chunks) broken (taken ∷ outcomes) content =
    let rest =
      stage_chunks maximum (size + length chunk) chunks broken outcomes (content ++ chunk) in
    if ltb maximum (size + length chunk)
    then err too_large
    else if taken
    then rest
    else err download_failed

-- `upload.complete(parts)`: only then is the object there.
abbrev pub commit_blocks :
    String → Bytes → List Bool → Objects → Result ArtifactError Bytes × Objects
commit_blocks key content (true ∷ outcomes) objects =
    (ok content, upsert str_eq key content objects)
commit_blocks key content _ objects = (err download_failed, objects)

module _ (hexdigest : Bytes → String) where
  unfoldable pub finish_blob :
      ArtifactRecord
      → Result ArtifactError (Bytes × List Bool)
      → Objects
      → Result ArtifactError Bytes × Objects
  unfolding upsert blob_key expected_digest
  finish_blob r (err e) objects = (err e, objects)
  finish_blob r (ok (content, outcomes)) objects =
      if str_eq (hexdigest content) (expected_digest r)
      then commit_blocks (blob_key r) content outcomes objects
      else (err checksum, objects)

  -- The reply behind the redirects; a missing `Location` is answered as the limit.
  unfoldable pub store_blob :
      ℕ
      → ArtifactRecord
      → List Bool
      → Result ArtifactError Reply
      → Objects
      → Result ArtifactError Bytes × Objects
  unfolding finish_blob stage_chunks
  store_blob maximum r outcomes (err no_location) objects = (err redirect_limit, objects)
  store_blob maximum r outcomes (err e) objects = (err e, objects)
  store_blob maximum r outcomes (ok failed) objects = (err download_failed, objects)
  store_blob maximum r outcomes (ok (answer status location chunks broken)) objects =
      if is_success status
      then finish_blob r (stage_chunks maximum 0 chunks broken outcomes []) objects
      else (err download_failed, objects)

  module _ (P : Platform) (urls : Urls) (service : ArtifactService) (c : Catalogs) (now : ℤ)
      (outcomes : List Bool) (net : Net) where
    -- Nothing is begun for a source that is not allowed.
    abbrev pub fetch_blob :
        Bool
        → ArtifactRecord
        → Result ArtifactError Reply
        → Objects
        → Result ArtifactError Bytes × Objects
    fetch_blob true r reply objects = store_blob service.maximum_bytes r outcomes reply objects
    fetch_blob false r reply objects = (err source_not_allowed, objects)

    unfoldable pub download_blob : ArtifactRecord → Objects → Result ArtifactError Bytes × Objects
    unfolding store_blob stream_allowed allowed_https_url
    download_blob r objects =
        fetch_blob (allowed_https_url P urls r.source_url service.allowed_hosts) r
          (stream_allowed P urls service.allowed_hosts 6 r.source_url net).0 objects

    abbrev pub lifted : Result ArtifactError Bytes × Objects → Result StreamError Bytes × Objects
    lifted (ok content, objects) = (ok content, objects)
    lifted (err e, objects) = (err (service_error e), objects)

    abbrev pub stored_or_download :
        ArtifactRecord → Option Bytes → Objects → Result StreamError Bytes × Objects
    stored_or_download r (some content) objects = (ok content, objects)
    stored_or_download r none objects = lifted (download_blob r objects)

    abbrev pub stream_unless :
        ArtifactRecord → Option StreamError → Objects → Result StreamError Bytes × Objects
    stream_unless r (some e) objects = (err e, objects)
    stream_unless r none objects = stored_or_download r (find str_eq (blob_key r) objects) objects

    abbrev pub stream_found : Option ArtifactRecord → Objects → Result StreamError Bytes × Objects
    stream_found none objects = (err (service_error not_found), objects)
    stream_found (some r) objects =
        stream_unless r (stream_denial service c now r (release_action c now r.project r.version))
          objects

    unfoldable pub get_stream : String → String → Objects → Result StreamError Bytes × Objects
    unfolding download_blob stream_denial find active_overrides get_artifact is_digest safe_filename
        blob_key
    get_stream digest filename objects =
        if is_digest (P.casefold digest) && safe_filename filename
        then stream_found (get_artifact c.database (P.casefold digest) filename) objects
        else (err (service_error not_found), objects)
