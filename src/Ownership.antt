-- ===== src/Ownership.antt =====
-- postgres.py: the private projects of the catalog, their files and the audit log. Each method is
-- one transaction.
pub mod Publishing
pub mod Rules
pub mod Sound
use wheelguard.Base.{
  ℤ, Bool, true, false, not, ◌&&◌, ◌||◌, String, Option, none, some, List, [], ◌∷◌, ◌++◌, map,
  select, any, is_some, str_eq, if◌then◌else◌,
}
use wheelguard.Base.Sort.{sort}
use wheelguard.Base.Table.{find, upsert}
use wheelguard.Database.{pair_eq}
use wheelguard.Vulnerabilities.{is_nil, text_lt}

-- A row of `private_projects`.
pub record PrivateProject : Type 0 where
  pub collisions : List String
  pub approved_at : Option ℤ
  pub approved_by : Option String
  pub claimed_at : Option ℤ

-- A row of `private_artifacts`, by project and file name.
pub record PrivateArtifact : Type 0 where
  pub project : String
  pub filename : String
  pub version : String
  pub sha256 : String
  pub size : ℤ
  pub object_key : String
  pub requires_python : Option String
  pub uploaded_at : ℤ

-- A row of `policy_audit`, with the project of its details.
pub record AuditEntry : Type 0 where
  pub event_type : String
  pub actor : String
  pub occurred_at : ℤ
  pub subject : String

pub record PrivateCatalog : Type 0 where
  pub projects : List (String × PrivateProject)
  pub files : List ((String × String) × PrivateArtifact)
  pub audit : List AuditEntry

abbrev pub no_projects : PrivateCatalog
no_projects = record { projects = []; files = []; audit = [] }

unfoldable pub private_project : PrivateCatalog → String → Option PrivateProject
unfolding find
private_project catalog name = find str_eq name catalog.projects

-- `WHERE claimed_at IS NULL AND approved_at IS NULL AND collisions = '[]'`
abbrev pub is_untouched : PrivateProject → Bool
is_untouched row =
    not (is_some row.claimed_at) && (not (is_some row.approved_at) && is_nil row.collisions)

-- The row after `INSERT … ON CONFLICT(normalized_name) DO UPDATE SET collisions = … WHERE …`.
unfoldable pub collided : List String → Option PrivateProject → PrivateProject
collided collisions none = record {
  collisions = collisions;
  approved_at = none;
  approved_by = none;
  claimed_at = none;
}
collided collisions (some row) =
    if is_untouched row then record row { collisions = collisions } else row

unfoldable pub record_private_collisions :
    PrivateCatalog → String → List String → PrivateProject × PrivateCatalog
unfolding collided upsert private_project
record_private_collisions catalog name collisions =
    let row = collided collisions (private_project catalog name) in
    (row, record catalog { projects = upsert str_eq name row catalog.projects })

-- `collisions = '[]' OR approved_at IS NOT NULL OR claimed_at IS NOT NULL`
abbrev pub is_claimable : PrivateProject → Bool
is_claimable row = is_nil row.collisions || (is_some row.approved_at || is_some row.claimed_at)

abbrev pub Files : Type 0
Files = List ((String × String) × PrivateArtifact)

-- `ON CONFLICT(project, filename) DO NOTHING`
abbrev pub insert_new : PrivateArtifact → Option PrivateArtifact → Files → Files
insert_new file none files = ((file.project, file.filename), file) ∷ files
insert_new file (some _) files = files

-- `INSERT … SELECT … FROM private_projects WHERE …`
unfoldable pub insert_file : Option PrivateProject → PrivateArtifact → Files → Files
unfolding find
insert_file none file files = files
insert_file (some row) file files =
    if is_claimable row
    then insert_new file (find pair_eq (file.project, file.filename) files) files
    else files

abbrev pub has_files : String → Files → Bool
has_files project files = any (λ row. str_eq row.0.0 project) files

-- `UPDATE private_projects SET claimed_at = … WHERE … claimed_at IS NULL AND EXISTS (…)`
abbrev pub claimed : ℤ → Bool → PrivateProject → PrivateProject
claimed now owns row =
    if owns && not (is_some row.claimed_at) then record row { claimed_at = some now } else row

unfoldable pub claim :
    String
    → ℤ
    → Bool
    → Option PrivateProject
    → List (String × PrivateProject)
    → List (String × PrivateProject)
unfolding upsert
claim project now owns none projects = projects
claim project now owns (some row) projects = upsert str_eq project (claimed now owns row) projects

-- `'private.uploaded'`, if the row that is saved is the one of this upload
unfoldable pub upload_entry : PrivateArtifact → String → Option PrivateArtifact → List AuditEntry
upload_entry file actor none = []
upload_entry file actor (some saved) =
    if str_eq saved.object_key file.object_key
    then record {
      event_type = "private.uploaded";
      actor = actor;
      occurred_at = file.uploaded_at;
      subject = file.project;
    }
      ∷ []
    else []

unfoldable pub publish_private_artifact :
    PrivateCatalog → PrivateArtifact → String → Option PrivateArtifact × PrivateCatalog
unfolding insert_file claim upload_entry private_project find
publish_private_artifact catalog file actor =
    let row = private_project catalog file.project in
    let files = insert_file row file catalog.files in
    let saved = find pair_eq (file.project, file.filename) files in
    (
      saved,
      record {
        projects =
            claim file.project file.uploaded_at (has_files file.project files) row catalog.projects;
        files = files;
        audit = catalog.audit ++ upload_entry file actor saved;
      },
    )

-- `approve_private_project`, by the row that it reads; the second part tells what it returns.
unfoldable pub approve_row :
    PrivateCatalog → String → String → ℤ → Option PrivateProject → Bool × PrivateCatalog
unfolding upsert
approve_row catalog name actor now none = (false, catalog)
approve_row catalog name actor now (some row) =
    if is_nil row.collisions
    then (false, catalog)
    else if is_some row.approved_at
    then (true, catalog)
    else (
      true,
      record catalog {
        projects =
            upsert str_eq name (record row { approved_at = some now; approved_by = some actor })
              catalog.projects;
        audit =
            catalog.audit
            ++ (record {
              event_type = "private.collision-approved";
              actor = actor;
              occurred_at = now;
              subject = name;
            }
                ∷ []);
      },
    )

unfoldable pub approve_private_project :
    PrivateCatalog → String → String → ℤ → Bool × PrivateCatalog
unfolding approve_row private_project
approve_private_project catalog name actor now =
    approve_row catalog name actor now (private_project catalog name)

-- `WHERE project = ? ORDER BY filename`
unfoldable pub private_artifacts : PrivateCatalog → String → List PrivateArtifact
unfolding sort
private_artifacts catalog project =
    sort (λ a b. text_lt a.filename b.filename)
      (map (λ row. row.1) (select (λ row. str_eq row.0.0 project) catalog.files))

-- `JOIN private_projects p … WHERE sha256 = ? AND filename = ? AND p.claimed_at IS NOT NULL`
unfoldable pub is_claimed : Option PrivateProject → Bool
is_claimed none = false
is_claimed (some row) = is_some row.claimed_at

unfoldable pub first_match : PrivateCatalog → String → String → Files → Option PrivateArtifact
unfolding is_claimed private_project
first_match catalog digest filename [] = none
first_match catalog digest filename ((key, file) ∷ files) =
    let rest = first_match catalog digest filename files in
    if str_eq file.sha256 digest
      && (str_eq file.filename filename && is_claimed (private_project catalog file.project))
    then some file
    else rest

unfoldable pub private_artifact : PrivateCatalog → String → String → Option PrivateArtifact
unfolding first_match
private_artifact catalog digest filename = first_match catalog digest filename catalog.files
