-- ===== src/AzureArtifacts/Authorized.antt =====
-- What a stream that is served has passed.
use wheelguard.Artifacts.{Bytes}
use wheelguard.Artifacts.Download.{expected_digest}
use wheelguard.Artifacts.Service.{ArtifactService, authorize}
use wheelguard.AzureArtifacts.{blob_key, Catalogs, release_action}
use wheelguard.Base.{ℤ, ◌≡◌, ◌⊎◌, true, false, not, ◌&&◌, String, none, some, str_eq}
use wheelguard.Base.Table.{find}
use wheelguard.Models.{ArtifactRecord}
use wheelguard.Platform.{Platform}
use wheelguard.Policy.{action_is}
use wheelguard.Publication.{Objects, owns}

-- A record that may be served: nobody owns the project of its release, if it has a project and a
-- version; no override blocks that release; and with enforced advisories its evaluation clears it
-- unless an override allows it.
pub record IsServable (service : ArtifactService) (c : Catalogs) (now : ℤ) (r : ArtifactRecord)
    : Type 0 where
  pub unowned :
      (project version : String)
      → r.project ≡ some project
      → r.version ≡ some version
      → owns c.private_catalog project ≡ false
  pub unblocked : action_is "block" (release_action c now r.project r.version) ≡ false
  pub cleared :
      service.enforce_advisories
          && not (action_is "allow" (release_action c now r.project r.version))
        ≡ true
      → authorize c.database service.advisory_ttl now r ≡ none

-- The bytes are an object that was there, or have the digest that the record expects.
abbrev pub IsStoredOrVerified : (Bytes → String) → ArtifactRecord → Objects → Bytes → Type 0
IsStoredOrVerified hexdigest r objects content =
    (find str_eq (blob_key r) objects ≡ some content) ⊎ (hexdigest content ≡ expected_digest r)
