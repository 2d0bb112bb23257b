-- ===== src/Ownership/Sound.antt =====
-- What every state of the ownership catalog keeps.
use wheelguard.Base.{
  ◌≡◌, refl, sym, ap, subst, ◌∙◌, ◌⊎◌, inl, inr, Bool, true, false, not, ◌&&◌, String, Option, none,
  some, List, [], ◌∷◌, ◌++◌, any, is_some, str_eq, eq_iff, Bool-cases, and_true, arith,
}
use wheelguard.Base.Table.{find, upsert, find-upsert}
use wheelguard.Database.{pair_eq}
use wheelguard.Ownership.{
  PrivateProject, PrivateArtifact, AuditEntry, PrivateCatalog, Files, private_project, is_untouched,
  collided, record_private_collisions,
}
use wheelguard.Vulnerabilities.{is_nil}

abbrev pub Projects : Type 0
Projects = List (String × PrivateProject)

-- No public package of the name was found, or an administrator approved the collision.
abbrev pub IsCleared : PrivateProject → Type 0
IsCleared row = (is_nil row.collisions ≡ true) ⊎ (is_some row.approved_at ≡ true)

abbrev pub IsOwned : String → Projects → Type 0
IsOwned name projects =
    (row : PrivateProject) × (find str_eq name projects ≡ some row)
    × (is_some row.claimed_at ≡ true)

-- The audit log has an approval of the name.
abbrev pub is_approval : String → AuditEntry → Bool
is_approval name entry =
    str_eq entry.event_type "private.collision-approved" && str_eq entry.subject name

abbrev pub IsApproved : String → List AuditEntry → Type 0
IsApproved name audit = any (is_approval name) audit ≡ true

pub record IsSound (c : PrivateCatalog) : Type 0 where
  pub cleared :
      (name : String) (row : PrivateProject)
      → find str_eq name c.projects ≡ some row
      → is_some row.claimed_at ≡ true
      → IsCleared row
  pub owned :
      (project filename : String) (file : PrivateArtifact)
      → find pair_eq (project, filename) c.files ≡ some file
      → IsOwned project c.projects
  pub approved :
      (name : String) (row : PrivateProject)
      → find str_eq name c.projects ≡ some row
      → is_some row.approved_at ≡ true
      → IsApproved name c.audit

pub any-append :
    (p : AuditEntry → Bool) (xs ys : List AuditEntry) → any p xs ≡ true → any p (xs ++ ys) ≡ true
any-append p [] ys h = cc
any-append p (x ∷ xs) ys h = ground (arith, any-append p xs ys)

pub any-last :
    (p : AuditEntry → Bool) (xs : List AuditEntry) (x : AuditEntry)
    → p x ≡ true
    → any p (xs ++ (x ∷ [])) ≡ true
any-last p [] x h = ground arith
any-last p (y ∷ xs) x h = ground (arith, any-last p xs x h)

-- The row that a name has after a write to one name.
written :
    (name other : String) (r row : PrivateProject) (projects : Projects)
    → find str_eq other (upsert str_eq name r projects) ≡ some row
    → ((name ≡ other) × (r ≡ row)) ⊎ (find str_eq other projects ≡ some row)
written name other r row projects h = elim (Bool-cases (str_eq name other)) [
  | inl e ↦ inl ((eq_iff name other).0 e, (let q : some r ≡ some row = sym (after e) ∙ h in cc q))
  | inr e ↦ inr (sym (before e) ∙ h)
]
  where
    after : str_eq name other ≡ true → find str_eq other (upsert str_eq name r projects) ≡ some r
    after e = find-upsert str_eq eq_iff name other r projects ∙ rw e refl

    before :
        str_eq name other ≡ false
        → find str_eq other (upsert str_eq name r projects) ≡ find str_eq other projects
    before e = find-upsert str_eq eq_iff name other r projects ∙ rw e refl

-- A write that drops no claim keeps what is owned.
pub IsOwned-upsert :
    (name other : String) (r : PrivateProject) (projects : Projects)
    → ((row : PrivateProject)
        → find str_eq name projects ≡ some row
        → is_some row.claimed_at ≡ true
        → is_some r.claimed_at ≡ true)
    → IsOwned other projects
    → IsOwned other (upsert str_eq name r projects)
IsOwned-upsert name other r projects keeps (row, found, taken) =
    elim (Bool-cases (str_eq name other)) [
      | inl e ↦ (
        r,
        find-upsert str_eq eq_iff name other r projects ∙ rw e refl,
        keeps row (ap (λ n. find str_eq n projects) ((eq_iff name other).0 e) ∙ found) taken,
      )
      | inr e ↦ (row, find-upsert str_eq eq_iff name other r projects ∙ rw e found, taken)
    ]

-- One row, the files and the log change together.
module _ (c : PrivateCatalog) (sound : IsSound c) (name : String) (r : PrivateProject)
    (files : Files) (audit : List AuditEntry) where
  pub write-IsSound :
      (is_some r.claimed_at ≡ true → IsCleared r)
      → (is_some r.approved_at ≡ true → IsApproved name audit)
      → ((n : String) → IsApproved n c.audit → IsApproved n audit)
      → ((p f : String) (file : PrivateArtifact)
          → find pair_eq (p, f) files ≡ some file
          → IsOwned p (upsert str_eq name r c.projects))
      → IsSound
          (record { projects = upsert str_eq name r c.projects; files = files; audit = audit })
  write-IsSound clear approve log own = record {
    cleared = λ n row h t. elim (written name n r row c.projects h) [
      | inl (e, q) ↦ subst IsCleared q (clear (subst (λ x. is_some x.claimed_at ≡ true) (sym q) t))
      | inr old ↦ sound.cleared n row old t
    ];
    owned = own;
    approved = λ n row h t. elim (written name n r row c.projects h) [
      | inl (e, q) ↦
          subst (λ m. IsApproved m audit) e
            (approve (subst (λ x. is_some x.approved_at ≡ true) (sym q) t))
      | inr old ↦ log n (sound.approved n row old t)
    ];
  }

-- Recording collisions changes a row only while nobody has claimed or approved it.
module _ (c : PrivateCatalog) (sound : IsSound c) (name : String) (collisions : List String) where
  collided-IsCleared :
      (o : Option PrivateProject)
      → find str_eq name c.projects ≡ o
      → is_some (collided collisions o).claimed_at ≡ true
      → IsCleared (collided collisions o)
  unfolding collided
  collided-IsCleared none e t = cc
  collided-IsCleared (some row) e t = elim (Bool-cases (is_untouched row)) [
    | inl u ↦ cc ((and_true (not (is_some row.claimed_at)) _ u).0, t)
    | inr u ↦ rw u (sound.cleared name row e (rw u at t))
  ]

  collided-IsApproved :
      (o : Option PrivateProject)
      → find str_eq name c.projects ≡ o
      → is_some (collided collisions o).approved_at ≡ true
      → IsApproved name c.audit
  unfolding collided
  collided-IsApproved none e t = cc
  collided-IsApproved (some row) e t = elim (Bool-cases (is_untouched row)) [
    | inl u ↦ sound.approved name row e (rw u at t)
    | inr u ↦ sound.approved name row e (rw u at t)
  ]

  collided-keeps :
      (o : Option PrivateProject)
      → find str_eq name c.projects ≡ o
      → (row : PrivateProject) → find str_eq name c.projects ≡ some row
      → is_some row.claimed_at ≡ true
      → is_some (collided collisions o).claimed_at ≡ true
  unfolding collided
  collided-keeps none e row h t = cc (e, h)
  collided-keeps (some old) e row h t =
      let q : old ≡ row = cc (sym e ∙ h) in
      elim (Bool-cases (is_untouched old)) [
        | inl u ↦ rw u (subst (λ x. is_some x.claimed_at ≡ true) (sym q) t)
        | inr u ↦ rw u (subst (λ x. is_some x.claimed_at ≡ true) (sym q) t)
      ]

  pub record_private_collisions-IsSound : IsSound (record_private_collisions c name collisions).1
  unfolding record_private_collisions private_project
  record_private_collisions-IsSound =
      write-IsSound c sound name (collided collisions (private_project c name)) c.files c.audit
        (collided-IsCleared _ refl) (collided-IsApproved _ refl) (λ n a. a)
        (λ p f file h.
          IsOwned-upsert name p _ c.projects (collided-keeps _ refl) (sound.owned p f file h))
