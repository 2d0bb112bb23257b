-- ===== src/Publication/Uploaded.antt =====
-- `upload` step by step: whatever fails, the catalog and the storage stay together.
use wheelguard.Artifacts.{Bytes}
use wheelguard.Base.{◌≡◌, String, Option, none, List, str_eq}
use wheelguard.Base.Table.{find, upsert}
use wheelguard.Ownership.{
  PrivateProject, PrivateArtifact, PrivateCatalog, AuditEntry, insert_file, private_project, Files,
}
use wheelguard.Platform.{Urls}
use wheelguard.Publication.{Objects, World, Packaging}
use wheelguard.Publication.Backed.{IsBacked}
use wheelguard.Upload.{Codecs}
use wheelguard.Upload.Receive.{Transfer}

module _ (U : Urls) (G : Packaging) (upstream_url : String) where
  module _ (C : Codecs) (w : World) (b : IsBacked C w.catalog.files w.objects) (object_key : String)
      (fresh : find str_eq object_key w.objects ≡ none) (content : Bytes) where
    -- The state after the transfer, with any catalog.
    abbrev transferred : PrivateCatalog → World
    transferred catalog = record {
      catalog = catalog;
      objects = upsert str_eq object_key content w.objects;
    }

  module _ (C : Codecs) (w : World) (b : IsBacked C w.catalog.files w.objects)
      (file : PrivateArtifact) (fresh : find str_eq file.object_key w.objects ≡ none)
      (content : Bytes) (digest : C.sha256 content ≡ file.sha256) (actor origin : String)
      (catalog : PrivateCatalog) (same : catalog.files ≡ w.catalog.files) where
    abbrev row_before : Option PrivateProject
    row_before = private_project catalog file.project

    abbrev files_after : Files
    files_after = insert_file row_before file catalog.files

    abbrev objects_with : Objects
    objects_with = upsert str_eq file.object_key content w.objects

    -- The row of the file, with the audit log and the claims that the transaction wrote.
    module _ (projects : List (String × PrivateProject)) (audit : List AuditEntry) where
      abbrev after_commit : World
      after_commit = record {
        catalog = record { projects = projects; files = files_after; audit = audit };
        objects = objects_with;
      }
