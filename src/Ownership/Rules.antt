-- ===== src/Ownership/Rules.antt =====
-- The life of the ownership catalog as steps, and what every reachable state has.
use wheelguard.Base.{
  ℤ, ◌≡◌, ◌⊎◌, inl, inr, true, String, Option, none, some, Bool-cases, List, is_some,
}
use wheelguard.Base.Table.{find}
use wheelguard.Database.{pair_eq}
use wheelguard.Ownership.{
  PrivateProject, PrivateArtifact, PrivateCatalog, no_projects, record_private_collisions,
  publish_private_artifact, approve_row, approve_private_project, private_project,
}
use wheelguard.Ownership.Publishing.{
  inserted-keeps, publish_private_artifact-IsSound, approve_private_project-IsSound,
}
use wheelguard.Ownership.Sound.{IsApproved, IsSound, record_private_collisions-IsSound}
use wheelguard.Vulnerabilities.{is_nil}

-- Publishers and administrators, in any order.
pub data Step : PrivateCatalog → PrivateCatalog → Type 0 where
  collide :
      (c : PrivateCatalog) (name : String) (collisions : List String)
      → Step c (record_private_collisions c name collisions).1
  publish :
      (c : PrivateCatalog) (file : PrivateArtifact) (actor : String)
      → Step c (publish_private_artifact c file actor).1
  approve :
      (c : PrivateCatalog) (name actor : String) (now : ℤ)
      → Step c (approve_private_project c name actor now).1

pub data Reach (c : PrivateCatalog) : PrivateCatalog → Type 0 where
  here : Reach c c
  next : {d e : PrivateCatalog} → Reach c d → Step d e → Reach c e

Step-IsSound : {c d : PrivateCatalog} → Step c d → IsSound c → IsSound d
Step-IsSound (collide c name collisions) s = record_private_collisions-IsSound c s name collisions
Step-IsSound (publish c file actor) s = publish_private_artifact-IsSound c s file actor
Step-IsSound (approve c name actor now) s = approve_private_project-IsSound c s name actor now

no_projects-IsSound : IsSound no_projects
unfolding find
no_projects-IsSound = record {
  cleared = λ name row h t. cc h;
  owned = λ p f file h. cc h;
  approved = λ name row h t. cc h;
}

pub Reach-IsSound : {c d : PrivateCatalog} → Reach c d → IsSound c → IsSound d
Reach-IsSound here s = s
Reach-IsSound (next r step) s = Step-IsSound step (Reach-IsSound r s)

-- In every state that publishers and administrators reach from the empty catalog, a name that has
-- a private file is claimed, and it is claimed only if no public package of the name was found or
-- the audit log has an administrator's approval.
pub owned_name_is_cleared :
    {c : PrivateCatalog} (project filename : String) (file : PrivateArtifact)
    → Reach no_projects c
    → find pair_eq (project, filename) c.files ≡ some file
    → (row : PrivateProject) × (private_project c project ≡ some row)
      × (is_some row.claimed_at ≡ true)
      × ((is_nil row.collisions ≡ true) ⊎ IsApproved project c.audit)
unfolding private_project
owned_name_is_cleared {c} project filename file r h =
    let sound = Reach-IsSound r no_projects-IsSound in
    let (row, found, taken) = sound.owned project filename file h in
    (
      row,
      found,
      taken,
      elim (sound.cleared project row found taken) [
        | inl n ↦ inl n
        | inr a ↦ inr (sound.approved project row found a)
      ],
    )

approved-keeps :
    (c : PrivateCatalog) (name actor : String) (now : ℤ) (o : Option PrivateProject)
    (key : String × String) (file : PrivateArtifact)
    → find pair_eq key c.files ≡ some file
    → find pair_eq key (approve_row c name actor now o).1.files ≡ some file
unfolding approve_row
approved-keeps c name actor now none key file h = h
approved-keeps c name actor now (some row) key file h = elim (Bool-cases (is_nil row.collisions)) [
  | inl n ↦ rw n h
  | inr n ↦ elim (Bool-cases (is_some row.approved_at)) [
    | inl a ↦ rw (n, a) h
    | inr a ↦ rw (n, a) h
  ]
]

Step-keeps :
    {c d : PrivateCatalog} (key : String × String) (file : PrivateArtifact)
    → Step c d
    → find pair_eq key c.files ≡ some file
    → find pair_eq key d.files ≡ some file
unfolding record_private_collisions publish_private_artifact approve_private_project
Step-keeps key file (collide c name collisions) h = h
Step-keeps key file (publish c new actor) h = inserted-keeps new _ c.files key file h
Step-keeps key file (approve c name actor now) h = approved-keeps c name actor now _ key file h

-- A private file that was published is never replaced or removed: whatever publishers and
-- administrators do, its row stays as it is.
pub file_is_immutable :
    {c d : PrivateCatalog} (key : String × String) (file : PrivateArtifact)
    → Reach c d
    → find pair_eq key c.files ≡ some file
    → find pair_eq key d.files ≡ some file
file_is_immutable key file here h = h
file_is_immutable key file (next r step) h =
    Step-keeps key file step (file_is_immutable key file r h)
