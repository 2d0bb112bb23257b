-- ===== src/Tests/Owning.antt =====
-- The ownership catalog after a first upload.
use wheelguard.Base.{pos, ◌≡◌, refl, ◌⊎◌, true, none, some, [], ◌∷◌, is_some}
use wheelguard.Base.Table.{find, upsert}
use wheelguard.Database.{pair_eq}
use wheelguard.Ownership.{
  PrivateProject, PrivateArtifact, PrivateCatalog, no_projects, private_project, collided,
  record_private_collisions, publish_private_artifact, insert_file, claim, upload_entry,
  approve_private_project, approve_row,
}
use wheelguard.Ownership.Rules.{
  collide, publish, approve, Reach, here, next, owned_name_is_cleared, file_is_immutable,
}
use wheelguard.Ownership.Sound.{IsApproved}
use wheelguard.Vulnerabilities.{is_nil}

abbrev pub private_wheel : PrivateArtifact
private_wheel = record {
  project = "a";
  filename = "a.whl";
  version = "1";
  sha256 = "d";
  size = pos 3;
  object_key = "k";
  requires_python = none;
  uploaded_at = pos 7;
}

abbrev checked_catalog : PrivateCatalog
checked_catalog = (record_private_collisions no_projects "a" ("https://pypi.org/simple/a/" ∷ [])).1

abbrev approved_catalog : PrivateCatalog
approved_catalog = (approve_private_project checked_catalog "a" "admin" (pos 5)).1

abbrev pub published_catalog : PrivateCatalog
published_catalog = (publish_private_artifact approved_catalog private_wheel "gitlab:g/a:s").1

published_catalog-Reach : Reach no_projects published_catalog
published_catalog-Reach =
    next
      (next (next here (collide no_projects "a" ("https://pypi.org/simple/a/" ∷ [])))
        (approve checked_catalog "a" "admin" (pos 5)))
      (publish approved_catalog private_wheel "gitlab:g/a:s")

pub wheel_there : find pair_eq ("a", "a.whl") published_catalog.files ≡ some private_wheel
unfolding find upsert private_project collided record_private_collisions publish_private_artifact
    insert_file claim upload_entry approve_private_project approve_row
wheel_there = refl

owned_name_is_cleared_example :
    (row : PrivateProject) × (private_project published_catalog "a" ≡ some row)
    × (is_some row.claimed_at ≡ true)
    × ((is_nil row.collisions ≡ true) ⊎ IsApproved "a" published_catalog.audit)
owned_name_is_cleared_example =
    owned_name_is_cleared "a" "a.whl" private_wheel published_catalog-Reach wheel_there

-- Another upload of the same name does not replace the file.
file_is_immutable_example :
    find pair_eq
      ("a", "a.whl")
      (publish_private_artifact published_catalog
        (record private_wheel { sha256 = "e"; object_key = "l" })
        "x").1.files
    ≡ some private_wheel
file_is_immutable_example =
    file_is_immutable ("a", "a.whl") private_wheel
      (next here
        (publish published_catalog (record private_wheel { sha256 = "e"; object_key = "l" }) "x"))
      wheel_there
