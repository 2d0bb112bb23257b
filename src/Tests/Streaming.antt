-- ===== src/Tests/Streaming.antt =====
-- A file of the container, streamed for a release that nobody owns or blocks.
use wheelguard.AzureArtifacts.{Catalogs, blob_key}
use wheelguard.Base.{some, [], ◌∷◌}
use wheelguard.Ownership.{no_projects}
use wheelguard.Publication.{Objects}
use wheelguard.Tests.Administering.{blocking}
use wheelguard.Tests.Serving.{digest, stocked, wheel}

-- The override in the table blocks release 1 of project a; this record is one of release 2.
abbrev catalogs : Catalogs
catalogs = record {
  database = record stocked {
    artifacts = ((digest, "a.whl"), record wheel { version = some "2" }) ∷ [];
  };
  private_catalog = no_projects;
  decisions = blocking;
}

abbrev container : Objects
container = (blob_key wheel, 1 ∷ 2 ∷ []) ∷ []
