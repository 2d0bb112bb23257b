-- ===== src/Publication/Backed.antt =====
-- The catalog's files and the objects of the storage: `upload` over `IsBacked` and `IsTidy`.
use wheelguard.Artifacts.{Bytes}
use wheelguard.Base.{
  ◌≡◌, refl, sym, ap, subst, ◌∙◌, inl, inr, true, false, String, Option, none, some, Has, str_eq,
  eq_iff, Bool-cases, Result, ok,
}
use wheelguard.Base.Table.{find, upsert, delete, find-upsert, find-delete}
use wheelguard.Database.{pair_eq}
use wheelguard.Ownership.{PrivateProject, PrivateArtifact, Files, insert_file}
use wheelguard.Ownership.Publishing.{inserted-Has, inserted-keeps}
use wheelguard.Publication.{
  Objects, World, Commit, answered, Deletion, deleted, lost_deleted, kept, drop_object, Published,
}
use wheelguard.Upload.{UploadError, Codecs}

-- Every file of the catalog has its object, with the digest of its row.
abbrev pub IsBacked : Codecs → Files → Objects → Type 0
IsBacked C files objects =
    (key : String × String) (file : PrivateArtifact)
    → Has (key, file) files
    → (content : Bytes) × (find str_eq file.object_key objects ≡ some content)
      × (C.sha256 content ≡ file.sha256)

-- Every object is that of a file of the catalog.
abbrev pub IsTidy : Files → Objects → Type 0
IsTidy files objects =
    (object_key : String) (content : Bytes)
    → find str_eq object_key objects ≡ some content
    → (key : String × String) × (file : PrivateArtifact) × (find pair_eq key files ≡ some file)
      × (file.object_key ≡ object_key)

module _ (C : Codecs) (objects : Objects) (object_key : String) (content : Bytes)
    (fresh : find str_eq object_key objects ≡ none) where
  abbrev with_object : Objects
  with_object = upsert str_eq object_key content objects

  abbrev without_object : Objects
  without_object = delete str_eq object_key with_object

  -- Another object is in both as it was.
  other_with :
      (k : String) → str_eq object_key k ≡ false → find str_eq k with_object ≡ find str_eq k objects
  other_with k n = find-upsert str_eq eq_iff object_key k content objects ∙ rw n refl

  other_without :
      (k : String)
      → str_eq object_key k ≡ false
      → find str_eq k without_object ≡ find str_eq k objects
  other_without k n = find-delete str_eq eq_iff object_key k with_object ∙ rw n (other_with k n)

  -- An object that was there is another one.
  old_is_other :
      (k : String) (c : Bytes) → find str_eq k objects ≡ some c → str_eq object_key k ≡ false
  old_is_other k c h = elim (Bool-cases (str_eq object_key k)) [
    | inl e ↦ cc (fresh, ap (λ x. find str_eq x objects) ((eq_iff object_key k).0 e), h)
    | inr n ↦ n
  ]

  pub with-IsBacked : (files : Files) → IsBacked C files objects → IsBacked C files with_object
  with-IsBacked files b key file h =
      let (c, found, digest) = b key file h in
      (c, other_with file.object_key (old_is_other file.object_key c found) ∙ found, digest)

  pub without-IsBacked :
      (files : Files) → IsBacked C files objects → IsBacked C files without_object
  without-IsBacked files b key file h =
      let (c, found, digest) = b key file h in
      (c, other_without file.object_key (old_is_other file.object_key c found) ∙ found, digest)

  pub without-IsTidy : (files : Files) → IsTidy files objects → IsTidy files without_object
  without-IsTidy files tidy k c h = elim (Bool-cases (str_eq object_key k)) [
    | inl e ↦
        let gone : find str_eq k without_object ≡ none =
          find-delete str_eq eq_iff object_key k with_object ∙ rw e refl in
        cc (gone, h)
    | inr n ↦ tidy k c (sym (other_without k n) ∙ h)
  ]

  -- The file of this upload goes into the catalog.
  module _ (file : PrivateArtifact) (same_key : file.object_key ≡ object_key)
      (same_digest : C.sha256 content ≡ file.sha256) (o : Option PrivateProject) (files : Files)
      (b : IsBacked C files objects) where
    pub inserted-IsBacked : IsBacked C (insert_file o file files) with_object
    inserted-IsBacked key found h = elim (inserted-Has file o files key found h) [
      | inl old ↦ with-IsBacked files b key found old
      | inr (same, there) ↦
          subst
            (λ f.
              (c : Bytes) × (find str_eq f.object_key with_object ≡ some c)
              × (C.sha256 c ≡ f.sha256))
            same
            (
              content,
              ap (λ x. find str_eq x with_object) same_key
                  ∙ find-upsert str_eq eq_iff object_key object_key content objects
                  ∙ rw ((eq_iff object_key object_key).1 refl) refl,
              same_digest,
            )
    ]

    -- Unless the row at the file's key is this upload's, no row is.
    pub discarded-IsBacked :
        ((row : PrivateArtifact)
          → find pair_eq (file.project, file.filename) (insert_file o file files) ≡ some row
          → str_eq row.object_key object_key ≡ false)
        → IsBacked C (insert_file o file files) without_object
    discarded-IsBacked other key found h = elim (inserted-Has file o files key found h) [
      | inl old ↦ without-IsBacked files b key found old
      | inr (same, there) ↦ cc (other file there, (eq_iff file.object_key object_key).1 same_key)
    ]

    pub discarded-IsTidy : IsTidy files objects → IsTidy (insert_file o file files) without_object
    discarded-IsTidy tidy k c h =
        let (key, old, there, e) = without-IsTidy files tidy k c h in
        (key, old, inserted-keeps file o files key old there, e)

    pub inserted-IsTidy :
        (row : PrivateArtifact)
        → find pair_eq (file.project, file.filename) (insert_file o file files) ≡ some row
        → str_eq row.object_key object_key ≡ true
        → IsTidy files objects
        → IsTidy (insert_file o file files) with_object
    inserted-IsTidy row saved mine tidy k c h = elim (Bool-cases (str_eq object_key k)) [
      | inl e ↦ (
        (file.project, file.filename),
        row,
        saved,
        (eq_iff row.object_key object_key).0 mine ∙ (eq_iff object_key k).0 e,
      )
      | inr n ↦
          let (key, old, there, e) = tidy k c (sym (other_with k n) ∙ h) in
          (key, old, inserted-keeps file o files key old there, e)
    ]

-- What an upload leaves of the catalog's files and the objects, and what its answer tells.
pub record IsPublication (C : Codecs) (before : World) (commit : Commit) (deletion : Deletion)
    (result : Result UploadError Published) (w : World) : Type 0 where
  pub backed : IsBacked C w.catalog.files w.objects
  pub tidy :
      commit ≡ answered
      → ¬ (deletion ≡ kept)
      → IsTidy before.catalog.files before.objects
      → IsTidy w.catalog.files w.objects
  pub published :
      (p : Published)
      → result ≡ ok p
      → (file : PrivateArtifact) × (find pair_eq (p.project, p.filename) w.catalog.files
          ≡ some file)
        × (file.sha256 ≡ p.sha256)

-- An object is dropped, or its deletion fails: the files need their objects with it and without it,
-- and it is one that no file refers to.
pub drop_object-IsPublication :
    (C : Codecs) (before : World) (commit : Commit) (deletion : Deletion) (key : String)
    (result : Result UploadError Published) (w : World)
    → IsBacked C w.catalog.files w.objects
    → IsBacked C w.catalog.files (delete str_eq key w.objects)
    → (IsTidy before.catalog.files before.objects
        → IsTidy w.catalog.files (delete str_eq key w.objects))
    → ((p : Published)
        → result ≡ ok p
        → (file : PrivateArtifact) × (find pair_eq (p.project, p.filename) w.catalog.files
            ≡ some file)
          × (file.sha256 ≡ p.sha256))
    → IsPublication C before commit deletion
        (drop_object deletion key result w).0
        (drop_object deletion key result w).1
drop_object-IsPublication C before commit deleted key result w b dropped t p = record {
  backed = dropped;
  tidy = λ a d s. t s;
  published = p;
}
drop_object-IsPublication C before commit lost_deleted key result w b dropped t p = record {
  backed = dropped;
  tidy = λ a d s. t s;
  published = λ q e. cc e;
}
drop_object-IsPublication C before commit kept key result w b dropped t p = record {
  backed = b;
  tidy = λ a d s. absurd (d refl);
  published = λ q e. cc e;
}
