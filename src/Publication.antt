-- ===== src/Publication.antt =====
-- private_service.py: the publication of a private package over the ownership catalog and the
-- object storage, and what is served of it.
pub mod Backed
pub mod Uploaded
pub mod Serve
use wheelguard.Artifacts.{Bytes}
use wheelguard.Base.{
  ℕ, ℤ, pos, Bool, true, false, not, ◌&&◌, ◌||◌, String, ◌<>◌, Option, none, some, List, [], ◌∷◌,
  ◌++◌, map, select, any, is_some, str_eq, rstrip_slash, nat_eq, if◌then◌else◌, Result, ok, err,
  ◌>>=◌,
}
use wheelguard.Base.Table.{find, upsert, delete}
use wheelguard.Database.{pair_eq}
use wheelguard.Ownership.{
  PrivateProject, PrivateArtifact, PrivateCatalog, private_project, record_private_collisions,
  publish_private_artifact, private_artifacts, private_artifact,
}
use wheelguard.Platform.{Urls, Url}
use wheelguard.Upload.{
  UploadError, collision, unchecked_ownership, inconclusive_ownership, different_bytes,
  storage_failed, database_failed, Codecs, Form,
}
use wheelguard.Upload.Receive.{Multipart, Transfer, joined, receive_upload}
use wheelguard.Vulnerabilities.{is_nil}

abbrev pub Objects : Type 0
Objects = List (String × Bytes)

pub record World : Type 0 where
  pub catalog : PrivateCatalog
  pub objects : Objects

-- How the commit of the catalog ends: with its answer, or with an exception of the connection,
-- before which the database may have applied the transaction.
pub data Commit : Type 0 where
  answered lost_applied lost_unapplied : Commit

-- How the deletion of an object ends: with its answer (an object that is missing is none), or with
-- an exception of the storage, before which the object may be gone.
pub data Deletion : Type 0 where
  deleted lost_deleted kept : Deletion

-- What an upload needs of its request.
pub record UploadRequest : Type 0 where
  pub content_type : String
  pub content_length : Option String
  pub body : Option (List Bytes)
  pub base_url : String

-- The answers of the environment: the storage's, that of a HEAD of each address (`none` for an
-- exception of the client), and the database's.
pub record Replies : Type 0 where
  pub outcomes : List Bool
  pub head : String → Option ℕ
  pub commit : Commit
  pub deletion : Deletion
  pub uploaded_at : ℤ

pub record Published : Type 0 where
  pub project : String
  pub filename : String
  pub sha256 : String

-- `netloc.rsplit("@", 1)[-1]`, `quote`, and `validate_distribution` on the objects of the bucket
pub record Packaging : Type 0 where
  pub quote : String → String
  pub after_at : String → String
  pub validate_distribution :
      Objects → String → Form → Result UploadError (String × String × Option String)

-- `await self._bucket.delete(key)` in `finally`: an exception of it replaces the result.
abbrev pub drop_object :
    Deletion → String → Result UploadError Published → World → Result UploadError Published × World
drop_object deleted key result w = (result, record w { objects = delete str_eq key w.objects })
drop_object lost_deleted key result w =
    (err storage_failed, record w { objects = delete str_eq key w.objects })
drop_object kept key result w = (err storage_failed, w)

-- `row.get("claimed_at") or row.get("approved_at")`
abbrev pub is_settled : PrivateProject → Bool
is_settled row = is_some row.claimed_at || is_some row.approved_at

module _ (U : Urls) (G : Packaging) (upstream_url : String) where
  -- `dict.fromkeys` of the two addresses
  unfoldable pub public_urls : String → List String
  public_urls name =
      let first = "https://pypi.org/simple/" <> G.quote name <> "/" in
      let second = U.urljoin upstream_url (G.quote name <> "/") in
      if str_eq first second then first ∷ [] else first ∷ second ∷ []

  -- The address without credentials, query and fragment.
  abbrev pub bare : Option Url → String → String
  bare none url = url
  bare (some u) url = U.urlunsplit u.scheme (G.after_at u.netloc) u.path "" ""

  abbrev pub found_at : Option ℕ → String → Result UploadError (List String)
  found_at none url = err unchecked_ownership
  found_at (some status) url =
      if nat_eq status 200
      then ok (bare (U.urlsplit url) url ∷ [])
      else if nat_eq status 404
      then ok []
      else err inconclusive_ownership

  unfoldable pub check_urls : (String → Option ℕ) → List String → Result UploadError (List String)
  check_urls head [] = ok []
  check_urls head (url ∷ urls) =
      found_at (head url) url >>= λ found. check_urls head urls >>= λ rest. ok (found ++ rest)

  -- After the row of the recorded collisions.
  abbrev pub judged :
      String
      → String
      → PrivateProject × PrivateCatalog
      → Result UploadError (Unit {0}) × PrivateCatalog
  judged name origin (row, catalog) = (
    if not (is_settled row) && not (is_nil row.collisions)
        then err (collision name origin)
        else ok tt,
    catalog,
  )

  abbrev pub recorded :
      String
      → String
      → PrivateCatalog
      → Result UploadError (List String)
      → Result UploadError (Unit {0}) × PrivateCatalog
  recorded name origin catalog (err e) = (err e, catalog)
  recorded name origin catalog (ok collisions) =
      judged name origin (record_private_collisions catalog name collisions)

  unfoldable pub claimable_row :
      (String → Option ℕ)
      → String
      → String
      → PrivateCatalog
      → Option PrivateProject
      → Result UploadError (Unit {0}) × PrivateCatalog
  unfolding check_urls public_urls record_private_collisions
  claimable_row head name origin catalog none =
      recorded name origin catalog (check_urls head (public_urls name))
  claimable_row head name origin catalog (some row) =
      if is_settled row
      then (ok tt, catalog)
      else if not (is_nil row.collisions)
      then (err (collision name origin), catalog)
      else recorded name origin catalog (check_urls head (public_urls name))

  unfoldable pub claimable :
      (String → Option ℕ)
      → String
      → String
      → PrivateCatalog
      → Result UploadError (Unit {0}) × PrivateCatalog
  unfolding claimable_row private_project
  claimable head name origin catalog =
      claimable_row head name origin catalog (private_project catalog name)

  -- After the commit answered: the row tells whether these bytes were there before.
  abbrev pub answer : PrivateArtifact → Bool → Result UploadError Published
  answer file true =
      ok (record { project = file.project; filename = file.filename; sha256 = file.sha256 })
  answer file false = err different_bytes

  abbrev pub discard_unless :
      Deletion
      → Bool
      → String
      → Result UploadError Published
      → World
      → Result UploadError Published × World
  discard_unless deletion true key result w = (result, w)
  discard_unless deletion false key result w = drop_object deletion key result w

  unfoldable pub saved_row :
      Deletion
      → PrivateArtifact
      → String
      → Option PrivateArtifact
      → World
      → Result UploadError Published × World
  unfolding delete
  saved_row deletion file origin none w =
      drop_object deletion file.object_key (err (collision file.project origin)) w
  saved_row deletion file origin (some row) w =
      discard_unless deletion (str_eq row.object_key file.object_key) file.object_key
        (answer file (str_eq row.sha256 file.sha256)) w

  unfoldable pub committed :
      Commit
      → Deletion
      → PrivateArtifact
      → String
      → String
      → World
      → Result UploadError Published × World
  unfolding saved_row publish_private_artifact
  committed answered deletion file actor origin w =
      let (row, catalog) = publish_private_artifact w.catalog file actor in
      saved_row deletion file origin row (record w { catalog = catalog })
  committed lost_applied deletion file actor origin w = (
    err database_failed,
    record w { catalog = (publish_private_artifact w.catalog file actor).1 },
  )
  committed lost_unapplied deletion file actor origin w = (err database_failed, w)

  abbrev pub after_claim :
      Commit
      → Deletion
      → PrivateArtifact
      → String
      → String
      → Objects
      → Result UploadError (Unit {0}) × PrivateCatalog
      → Result UploadError Published × World
  after_claim commit deletion file actor origin objects (err e, catalog) =
      drop_object deletion file.object_key (err e) (record { catalog = catalog; objects = objects })
  after_claim commit deletion file actor origin objects (ok claimed, catalog) =
      committed commit deletion file actor origin (record { catalog = catalog; objects = objects })

  module _ (C : Codecs) where
    abbrev pub new_file : String → Form → String × String × Option String → ℤ → PrivateArtifact
    new_file key form (name, version, requires_python) now = record {
      project = name;
      filename = form.filename;
      version = version;
      sha256 = C.sha256 form.content;
      size = pos form.size;
      object_key = key;
      requires_python = requires_python;
      uploaded_at = now;
    }

    -- After the validation of the distribution, with the object in the storage.
    unfoldable pub inspected :
        Replies
        → String
        → String
        → String
        → Form
        → World
        → Result UploadError (String × String × Option String)
        → Result UploadError Published × World
    unfolding delete claimable committed
    inspected r key actor origin form w (err e) = drop_object r.deletion key (err e) w
    inspected r key actor origin form w (ok (name, version, requires_python)) =
        after_claim r.commit r.deletion
          (new_file key form (name, version, requires_python) r.uploaded_at) actor origin w.objects
          (claimable r.head name origin w.catalog)

    -- A form comes with its transfer: the second clause is not reached.
    unfoldable pub received :
        Replies
        → String
        → String
        → String
        → World
        → Result UploadError Form × Option Transfer
        → Result UploadError Published × World
    unfolding inspected upsert
    received r key actor origin w (err e, t) = (err e, w)
    received r key actor origin w (ok form, none) = (err database_failed, w)
    received r key actor origin w (ok form, some t) =
        let objects = upsert str_eq key (joined t.parts) w.objects in
        inspected r key actor origin form (record w { objects = objects })
          (G.validate_distribution objects key form)

    unfoldable pub upload :
        Multipart
        → ℕ
        → UploadRequest
        → Replies
        → String
        → String
        → World
        → Result UploadError Published × World
    unfolding received receive_upload rstrip_slash
    upload M maximum request r key actor w =
        received r key actor (rstrip_slash request.base_url) w (
          receive_upload C M 5242880 request.content_type request.content_length request.body
            maximum r.outcomes)

-- `owns`
unfoldable pub owns : PrivateCatalog → String → Bool
unfolding private_project
owns catalog name = elim (private_project catalog name) [
  | none ↦ false
  | some row ↦ is_some row.claimed_at
]
