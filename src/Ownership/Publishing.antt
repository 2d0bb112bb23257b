-- ===== src/Ownership/Publishing.antt =====
-- Publication and approval keep the catalog sound, and a file that is there stays as it is.
use wheelguard.Base.{
  ℤ, ◌≡◌, refl, sym, ap, subst, ◌∙◌, ◌⊎◌, inl, inr, Bool, true, false, not, ◌&&◌, ◌||◌, String,
  Option, none, some, List, [], ◌∷◌, ◌++◌, Has, is_some, str_eq, eq_iff, Bool-cases, Option-cases,
  or_true,
}
use wheelguard.Base.Table.{find, upsert, find-upsert}
use wheelguard.Database.{pair_eq}
use wheelguard.Database.Keys.{pair_eq_refl, pair_eq_iff}
use wheelguard.Ownership.{
  PrivateProject, PrivateArtifact, AuditEntry, PrivateCatalog, Files, private_project, is_claimable,
  insert_file, has_files, claimed, claim, publish_private_artifact, approve_row,
  approve_private_project,
}
use wheelguard.Ownership.Sound.{
  IsCleared, IsOwned, is_approval, IsSound, any-append, any-last, IsOwned-upsert, write-IsSound,
}
use wheelguard.Vulnerabilities.{is_nil}

-- A project that has files has a file by some name.
has_files-found :
    (project : String) (files : Files)
    → has_files project files ≡ true
    → (filename : String) × (file : PrivateArtifact) × (find pair_eq (project, filename) files
        ≡ some file)
unfolding find
has_files-found project [] h = cc
has_files-found project (((p, f), file) ∷ files) h = elim (Bool-cases (str_eq p project)) [
  | inl e ↦ (f, file, rw (e, find, (eq_iff f f).1 refl) refl)
  | inr e ↦
      let (g, other, found) = has_files-found project files (rw e at h) in
      (g, other, rw (e, find) found)
]

find_head :
    (j key : String × String) (file found : PrivateArtifact) (files : Files)
    → pair_eq j key ≡ true
    → find pair_eq key ((j, file) ∷ files) ≡ some found
    → file ≡ found
unfolding find
find_head j key file found files k h = let q : some file ≡ some found = rw k at h in cc q

-- An insertion adds at most the new file, and only to a claimable project.
pub inserted :
    (file : PrivateArtifact) (o : Option PrivateProject) (files : Files) (key : String × String)
    (found : PrivateArtifact)
    → find pair_eq key (insert_file o file files) ≡ some found
    → (find pair_eq key files ≡ some found)
      ⊎ ((row : PrivateProject) × (o ≡ some row)
          × (is_claimable row ≡ true)
          × ((file.project, file.filename) ≡ key)
          × (file ≡ found))
unfolding insert_file
inserted file none files key found h = inl h
inserted file (some row) files key found h = elim (Bool-cases (is_claimable row)) [
  | inr n ↦ inl (rw n at h)
  | inl y ↦ elim (Option-cases (find pair_eq (file.project, file.filename) files)) [
    | inr (old, e) ↦ inl (rw (y, e) at h)
    | inl e ↦ elim (Bool-cases (pair_eq (file.project, file.filename) key)) [
      | inl k ↦ inr (
        row,
        refl,
        y,
        (pair_eq_iff (file.project, file.filename) key).0 k,
        find_head (file.project, file.filename) key file found files k (rw (y, e) at h),
      )
      | inr k ↦ inl (unfold find in rw (y, e, k) at h)
    ]
  ]
]

-- The same of every row, also of one that another row of its key hides.
pub inserted-Has :
    (file : PrivateArtifact) (o : Option PrivateProject) (files : Files) (key : String × String)
    (found : PrivateArtifact)
    → Has (key, found) (insert_file o file files)
    → Has (key, found) files
      ⊎ ((file ≡ found)
          × (find pair_eq (file.project, file.filename) (insert_file o file files) ≡ some file))
unfolding insert_file
inserted-Has file none files key found h = inl h
inserted-Has file (some row) files key found h = elim (Bool-cases (is_claimable row)) [
  | inr n ↦ inl (rw n at h)
  | inl y ↦ elim (Option-cases (find pair_eq (file.project, file.filename) files)) [
    | inr (old, e) ↦ inl (rw (y, e) at h)
    | inl e ↦ new y e (rw (y, e) at h)
  ]
]
  where
    new :
        is_claimable row ≡ true
        → find pair_eq (file.project, file.filename) files ≡ none
        → Has (key, found) (((file.project, file.filename), file) ∷ files)
        → Has (key, found) files
          ⊎ ((file ≡ found)
              × (find pair_eq (file.project, file.filename) (insert_file (some row) file files)
                  ≡ some file))
    new y e (inr m) = inl m
    new y e (inl q) = inr (cc q, rw (y, e, find, pair_eq_refl (file.project, file.filename)) refl)

-- A file that is there stays.
pub inserted-keeps :
    (file : PrivateArtifact) (o : Option PrivateProject) (files : Files) (key : String × String)
    (old : PrivateArtifact)
    → find pair_eq key files ≡ some old
    → find pair_eq key (insert_file o file files) ≡ some old
unfolding insert_file
inserted-keeps file none files key old h = h
inserted-keeps file (some row) files key old h = elim (Bool-cases (is_claimable row)) [
  | inr n ↦ rw n h
  | inl y ↦ elim (Option-cases (find pair_eq (file.project, file.filename) files)) [
    | inr (other, e) ↦ rw (y, e) h
    | inl e ↦ elim (Bool-cases (pair_eq (file.project, file.filename) key)) [
      | inl k ↦
          let q : (file.project, file.filename) ≡ key =
            (pair_eq_iff (file.project, file.filename) key).0 k in
          cc (sym (ap (λ n. find pair_eq n files) q) ∙ e, h)
      | inr k ↦ unfold find in rw (y, e, k) h
    ]
  ]
]

found-has_files :
    (p f : String) (files : Files) (file : PrivateArtifact)
    → find pair_eq (p, f) files ≡ some file
    → has_files p files ≡ true
unfolding find
found-has_files p f [] file h = cc
found-has_files p f (((q, g), old) ∷ files) file h = elim (Bool-cases (str_eq q p)) [
  | inl e ↦ rw e refl
  | inr e ↦ rw e (found-has_files p f files file (rw (e, find) at h))
]

-- A claim changes neither the collisions nor the approval, and takes nothing back.
claimed-IsCleared :
    (t : ℤ) (b : Bool) (row : PrivateProject) → IsCleared row → IsCleared (claimed t b row)
claimed-IsCleared t b row h = elim (Bool-cases (b && not (is_some row.claimed_at))) [
  | inl e ↦ rw e h
  | inr e ↦ rw e h
]

claimed-approved :
    (t : ℤ) (b : Bool) (row : PrivateProject) → (claimed t b row).approved_at ≡ row.approved_at
claimed-approved t b row = elim (Bool-cases (b && not (is_some row.claimed_at))) [
  | inl e ↦ rw e refl
  | inr e ↦ rw e refl
]

claimed-keeps :
    (t : ℤ) (b : Bool) (row : PrivateProject)
    → is_some row.claimed_at ≡ true
    → is_some (claimed t b row).claimed_at ≡ true
claimed-keeps t b row h = elim (Bool-cases (b && not (is_some row.claimed_at))) [
  | inl e ↦ rw e refl
  | inr e ↦ rw e h
]

claimed-takes : (t : ℤ) (row : PrivateProject) → is_some (claimed t true row).claimed_at ≡ true
claimed-takes t row = elim (Bool-cases (is_some row.claimed_at)) [
  | inl e ↦ rw e e
  | inr e ↦ rw e refl
]

-- A row that is claimed after the claim was claimed before it, or owns a file.
claimed-cases :
    (t : ℤ) (b : Bool) (row : PrivateProject)
    → is_some (claimed t b row).claimed_at ≡ true
    → (is_some row.claimed_at ≡ true) ⊎ (b ≡ true)
claimed-cases t true row h = inr refl
claimed-cases t false row h = inl h

module _ (c : PrivateCatalog) (sound : IsSound c) (file : PrivateArtifact) where
  abbrev after : Option PrivateProject → Files
  after o = insert_file o file c.files

  abbrev has_some : Option PrivateProject → Bool
  has_some o = has_files file.project (after o)

  -- What the insertion and the claim leave owned.
  owns_after :
      (row : PrivateProject)
      → find str_eq file.project c.projects ≡ some row
      → (p f : String) (found : PrivateArtifact)
      → find pair_eq (p, f) (after (some row)) ≡ some found
      → IsOwned p (
          upsert str_eq file.project
            (claimed file.uploaded_at (has_some (some row)) row)
            c.projects)
  owns_after row e p f found h = elim (inserted file (some row) c.files (p, f) found h) [
    | inl old ↦
        IsOwned-upsert file.project p _ c.projects
          (λ r k t.
            claimed-keeps file.uploaded_at _ row
              (subst (λ x. is_some x.claimed_at ≡ true) (let q : r ≡ row = cc (sym k ∙ e) in q) t))
          (sound.owned p f found old)
    | inr (r, q, y, key, same) ↦
        let there : has_some (some row) ≡ true =
          subst (λ n. has_files n (after (some row)) ≡ true)
            (let k : p ≡ file.project = cc key in k)
            (found-has_files p f (after (some row)) found h) in
        let k : file.project ≡ p = cc key in
        (
          claimed file.uploaded_at (has_some (some row)) row,
          find-upsert str_eq eq_iff file.project p _ c.projects
              ∙ rw ((eq_iff file.project p).1 k) refl,
          rw there (claimed-takes file.uploaded_at row),
        )
  ]

  -- Whoever holds a claim after the publication was free to claim.
  clear_after :
      (row : PrivateProject)
      → find str_eq file.project c.projects ≡ some row
      → is_some (claimed file.uploaded_at (has_some (some row)) row).claimed_at ≡ true
      → IsCleared row
  clear_after row e t = elim (claimed-cases file.uploaded_at (has_some (some row)) row t) [
    | inl before ↦ sound.cleared file.project row e before
    | inr owns ↦
        let (f, found, h) = has_files-found file.project (after (some row)) owns in
        elim (inserted file (some row) c.files (file.project, f) found h) [
          | inl old ↦
              let (r, k, taken) = sound.owned file.project f found old in
              sound.cleared file.project row e (
                subst (λ x. is_some x.claimed_at ≡ true) (let q : r ≡ row = cc (sym k ∙ e) in q)
                  taken)
          | inr (r, q, y, key, same) ↦ free r (let k : r ≡ row = cc q in k) y
        ]
  ]
    where
      free : (r : PrivateProject) → r ≡ row → is_claimable r ≡ true → IsCleared row
      free r q y =
          elim (or_true (is_nil r.collisions) (is_some r.approved_at || is_some r.claimed_at) y) [
            | inl n ↦ subst IsCleared q (inl n)
            | inr rest ↦ elim (or_true (is_some r.approved_at) (is_some r.claimed_at) rest) [
              | inl a ↦ subst IsCleared q (inr a)
              | inr t ↦
                  sound.cleared file.project row e (subst (λ x. is_some x.claimed_at ≡ true) q t)
            ]
          ]

  published-IsSound :
      (actor : String) (o : Option PrivateProject)
      → find str_eq file.project c.projects ≡ o
      → (log : List AuditEntry)
      → IsSound (record {
        projects = claim file.project file.uploaded_at (has_some o) o c.projects;
        files = after o;
        audit = c.audit ++ log;
      })
  unfolding claim
  published-IsSound actor none e log = record {
    cleared = sound.cleared;
    owned = unfold insert_file in sound.owned;
    approved = λ n row h t. any-append (is_approval n) c.audit log (sound.approved n row h t);
  }
  published-IsSound actor (some row) e log =
      write-IsSound c sound file.project (claimed file.uploaded_at (has_some (some row)) row)
        (after (some row)) (c.audit ++ log)
        (λ t. claimed-IsCleared file.uploaded_at _ row (clear_after row e t))
        (λ a. any-append (is_approval file.project) c.audit log (
          sound.approved file.project row e
            (subst (λ x. is_some x ≡ true) (claimed-approved file.uploaded_at _ row) a)))
        (λ n a. any-append (is_approval n) c.audit log a) (owns_after row e)

  pub publish_private_artifact-IsSound :
      (actor : String) → IsSound (publish_private_artifact c file actor).1
  unfolding publish_private_artifact private_project
  publish_private_artifact-IsSound actor = published-IsSound actor _ refl _

module _ (c : PrivateCatalog) (sound : IsSound c) (name actor : String) (now : ℤ) where
  approve_row-IsSound :
      (o : Option PrivateProject)
      → find str_eq name c.projects ≡ o
      → IsSound (approve_row c name actor now o).1
  unfolding approve_row
  approve_row-IsSound none e = sound
  approve_row-IsSound (some row) e = elim (Bool-cases (is_nil row.collisions)) [
    | inl n ↦ rw n sound
    | inr n ↦ elim (Bool-cases (is_some row.approved_at)) [
      | inl a ↦ rw (n, a) sound
      | inr a ↦
          rw (n, a)
            (write-IsSound c sound name
              (record row { approved_at = some now; approved_by = some actor }) c.files _
              (λ t. inr refl)
              (λ t. any-last (is_approval name) c.audit _ (rw ((eq_iff name name).1 refl) refl))
              (λ m h. any-append (is_approval m) c.audit _ h)
              (λ p f file h.
                IsOwned-upsert name p _ c.projects
                  (λ r k t.
                    subst (λ x. is_some x.claimed_at ≡ true) (let q : r ≡ row = cc (sym k ∙ e) in q)
                      t)
                  (sound.owned p f file h)))
    ]
  ]

  pub approve_private_project-IsSound : IsSound (approve_private_project c name actor now).1
  unfolding approve_private_project private_project
  approve_private_project-IsSound = approve_row-IsSound _ refl
