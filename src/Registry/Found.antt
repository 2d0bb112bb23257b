-- ===== src/Registry/Found.antt =====
-- What `get_artifact` finds after a registration.
use wheelguard.Base.{
  ◌≡◌, refl, sym, subst, ◌∙◌, String, Option, none, some, List, [], ◌∷◌, ◌++◌, inl, inr, Bool-cases,
  Option-cases, All, Has,
}
use wheelguard.Database.Keys.{pair_eq_refl, pair_eq_iff}
use wheelguard.Base.Table.{find, upsert, find-upsert}
use wheelguard.Database.{Database, pair_eq, write_artifacts, get_artifact}
use wheelguard.Json.{Json, Fields, null, str, obj}
use wheelguard.Json.Dict.{get}
use wheelguard.Models.{ArtifactRecord}
use wheelguard.Platform.{Platform, Urls}
use wheelguard.Policy.Release.Visibility.{files_of}
use wheelguard.Registry.{
  hash_of, wheel_record, metadata_record, metadata_sha256, append_metadata, join_records,
  records_of, file_records, artifact_records, register_artifacts,
}

abbrev Table : Type 0
Table = List ((String × String) × ArtifactRecord)

some_eq : {xs ys : List ArtifactRecord} → some xs ≡ some ys → xs ≡ ys
some_eq h = cc h

module _ (project : String) where
  -- The row of the key belongs to the project.
  abbrev Belongs : String × String → Table → Type 0
  Belongs key table =
      (r : ArtifactRecord) × (find pair_eq key table ≡ some r) × (r.project ≡ some project)

  abbrev OfProject : List ArtifactRecord → Type 0
  OfProject = All (λ r. r.project ≡ some project)

  Belongs-upsert :
      (r : ArtifactRecord) (key : String × String) (table : Table)
      → r.project ≡ some project
      → Belongs key table
      → Belongs key (upsert pair_eq (r.sha256, r.filename) r table)
  Belongs-upsert r key table p (old, found, q) =
      elim (Bool-cases (pair_eq (r.sha256, r.filename) key)) [
        | inl h ↦
            (r, find-upsert pair_eq pair_eq_iff (r.sha256, r.filename) key r table ∙ rw h refl, p)
        | inr h ↦ (
          old,
          find-upsert pair_eq pair_eq_iff (r.sha256, r.filename) key r table ∙ rw h found,
          q,
        )
      ]

  Belongs-first :
      (r : ArtifactRecord) (table : Table)
      → r.project ≡ some project
      → Belongs (r.sha256, r.filename) (upsert pair_eq (r.sha256, r.filename) r table)
  Belongs-first r table p = (
    r,
    find-upsert pair_eq pair_eq_iff (r.sha256, r.filename) (r.sha256, r.filename) r table
        ∙ rw (pair_eq_refl (r.sha256, r.filename)) refl,
    p,
  )

  write-keeps :
      (rs : List ArtifactRecord) (key : String × String) (table : Table)
      → OfProject rs
      → Belongs key table
      → Belongs key (write_artifacts rs table)
  unfolding write_artifacts
  write-keeps [] key table p b = b
  write-keeps (r ∷ rs) key table p b = write-keeps rs key _ p.1 (Belongs-upsert r key table p.0 b)

  write-finds :
      (rs : List ArtifactRecord) (r : ArtifactRecord) (table : Table)
      → OfProject rs
      → Has r rs
      → Belongs (r.sha256, r.filename) (write_artifacts rs table)
  unfolding write_artifacts
  write-finds [] r table p m = absurd m
  write-finds (s ∷ rs) r table p (inl e) =
      subst
        (λ t.
          Belongs (t.sha256, t.filename)
            (write_artifacts rs (upsert pair_eq (s.sha256, s.filename) s table)))
        e (write-keeps rs (s.sha256, s.filename) _ p.1 (Belongs-first s table p.0))
  write-finds (s ∷ rs) r table p (inr m) = write-finds rs r _ p.1 m

  OfProject-append :
      (rs ss : List ArtifactRecord) → OfProject rs → OfProject ss → OfProject (rs ++ ss)
  OfProject-append [] ss p q = q
  OfProject-append (r ∷ rs) ss p q = (p.0, OfProject-append rs ss p.1 q)

  Has-left : (r : ArtifactRecord) (rs ss : List ArtifactRecord) → Has r rs → Has r (rs ++ ss)
  Has-left r [] ss m = absurd m
  Has-left r (s ∷ rs) ss (inl e) = inl e
  Has-left r (s ∷ rs) ss (inr m) = inr (Has-left r rs ss m)

  Has-right : (r : ArtifactRecord) (rs ss : List ArtifactRecord) → Has r ss → Has r (rs ++ ss)
  Has-right r [] ss m = m
  Has-right r (s ∷ rs) ss m = inr (Has-right r rs ss m)

  -- Both parts of a list that was joined.
  joined_parts :
      (a b : Option (List ArtifactRecord)) {rs : List ArtifactRecord}
      → join_records a b ≡ some rs
      → (l : List ArtifactRecord) × (k : List ArtifactRecord) × (a ≡ some l)
        × (b ≡ some k)
        × (rs ≡ l ++ k)
  joined_parts (some l) (some k) h = (l, k, refl, refl, cc h)
  joined_parts (some l) none h = cc
  joined_parts none b h = cc

  OfProject-join :
      (a b : Option (List ArtifactRecord)) {rs : List ArtifactRecord}
      → ((l : List ArtifactRecord) → a ≡ some l → OfProject l)
      → ((k : List ArtifactRecord) → b ≡ some k → OfProject k)
      → join_records a b ≡ some rs
      → OfProject rs
  OfProject-join a b p q h =
      let (l, k, e, e', j) = joined_parts a b h in
      subst OfProject (sym j) (OfProject-append l k (p l e) (q k e'))

  module _ (P : Platform) (U : Urls) where
    OfProject-metadata :
        (digest filename : String) (m url : Option String) (rs : List ArtifactRecord)
        → metadata_record P U project digest filename m url ≡ some rs
        → OfProject rs
    unfolding metadata_record
    OfProject-metadata digest filename none url rs h = subst OfProject (some_eq h) tt
    OfProject-metadata digest filename (some m) none rs h = cc
    OfProject-metadata digest filename (some m) (some url) rs h =
        subst OfProject (some_eq h) (refl, tt)

    OfProject-records :
        (file : Fields) (d n u : Json) (rs : List ArtifactRecord)
        → records_of P U project file d n u ≡ some rs
        → OfProject rs
    unfolding records_of wheel_record
    OfProject-records file (str d) (str n) (str u) rs h =
        OfProject-join (some (wheel_record P U project d n u (get "size" file) ∷ []))
          (metadata_record P U project d n (metadata_sha256 P U file) (append_metadata P U u))
          (λ l e. subst OfProject (some_eq e) (refl, tt))
          (OfProject-metadata d n (metadata_sha256 P U file) (append_metadata P U u)) h
    OfProject-records file null n u rs h = subst OfProject (some_eq h) tt
    OfProject-records file _ n u rs h = subst OfProject (some_eq h) tt

    OfProject-file :
        (file : Json) (rs : List ArtifactRecord)
        → file_records P U project file ≡ some rs
        → OfProject rs
    unfolding file_records
    OfProject-file (obj f) rs h =
        OfProject-records f (hash_of (get "hashes" f)) (get "filename" f) (get "url" f) rs h
    OfProject-file null rs h = subst OfProject (some_eq h) tt
    OfProject-file _ rs h = subst OfProject (some_eq h) tt

    OfProject-all :
        (files : List Json) (rs : List ArtifactRecord)
        → artifact_records P U project files ≡ some rs
        → OfProject rs
    unfolding artifact_records
    OfProject-all [] rs h = subst OfProject (some_eq h) tt
    OfProject-all (file ∷ files) rs h =
        OfProject-join (file_records P U project file) (artifact_records P U project files)
          (OfProject-file file) (OfProject-all files) h

    -- The record of a file that has a digest, a name and a link.
    first_record :
        (f : Fields) (d n u : String) (rs : List ArtifactRecord)
        → hash_of (get "hashes" f) ≡ str d
        → get "filename" f ≡ str n
        → get "url" f ≡ str u
        → file_records P U project (obj f) ≡ some rs
        → Has (wheel_record P U project d n u (get "size" f)) rs
    unfolding file_records records_of
    first_record f d n u rs e e' e'' h =
        let (l, k, a, b, j) =
          joined_parts (some (wheel_record P U project d n u (get "size" f) ∷ [])) _
            (rw (e, e', e'') at h) in
        subst (Has _) (sym j) (Has-left _ l k (subst (Has _) (some_eq a) (inl refl)))

    record_there :
        (files : List Json) (f : Fields) (d n u : String) (rs : List ArtifactRecord)
        → Has (obj f) files
        → hash_of (get "hashes" f) ≡ str d
        → get "filename" f ≡ str n
        → get "url" f ≡ str u
        → artifact_records P U project files ≡ some rs
        → Has (wheel_record P U project d n u (get "size" f)) rs
    unfolding artifact_records
    record_there [] f d n u rs m e e' e'' h = absurd m
    record_there (g ∷ files) f d n u rs (inl i) e e' e'' h =
        let (l, k, a, b, j) = joined_parts (file_records P U project g) _ h in
        subst (Has _) (sym j) (
          Has-left _ l k (
            first_record f d n u l e e' e'' (subst (λ t. file_records P U project t ≡ some l) i a)))
    record_there (g ∷ files) f d n u rs (inr m) e e' e'' h =
        let (l, k, a, b, j) = joined_parts (file_records P U project g) _ h in
        subst (Has _) (sym j) (Has-right _ l k (record_there files f d n u k m e e' e'' b))

    -- After a registration `get_artifact` finds every file of the payload that has a digest, a name
    -- and a link, by its digest in lower case and its name, with the project that it belongs to.
    pub get_artifact-register_artifacts :
        (payload : Fields) (db db' : Database) (f : Fields) (d n u : String)
        → register_artifacts P U project payload db ≡ some db'
        → Has (obj f) (files_of payload)
        → hash_of (get "hashes" f) ≡ str d
        → get "filename" f ≡ str n
        → get "url" f ≡ str u
        → (r : ArtifactRecord) × (get_artifact db' (P.casefold d) n ≡ some r)
          × (r.project ≡ some project)
    unfolding register_artifacts get_artifact wheel_record
    get_artifact-register_artifacts payload db db' f d n u h m e e' e'' =
        elim (Option-cases (artifact_records P U project (files_of payload))) [
          | inl k ↦ cc (rw (register_artifacts, k) at h)
          | inr (rs, k) ↦
              let q : record db { artifacts = write_artifacts rs db.artifacts } ≡ db' =
                cc (rw (register_artifacts, k) at h) in
              rw (← q) (
                write-finds rs (wheel_record P U project d n u (get "size" f)) db.artifacts
                  (OfProject-all (files_of payload) rs k)
                  (record_there (files_of payload) f d n u rs m e e' e'' k))
        ]
