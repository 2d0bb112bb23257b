-- ===== src/Administration/Changes.antt =====
-- What creating and revoking an override changes.
use wheelguard.Administration.{
  OverrideRow, Decisions, is_active, active_overrides, is_live, revoke_rows, revoke_as,
  revoke_override, new_row, insert_override, create_override, unexpired,
}
use wheelguard.Administration.Newest.{
  IsActive, IsInForce, is_active-IsActive, active_overrides-IsInForce,
}
use wheelguard.Base.{
  ℤ, ◌≡◌, refl, sym, ap, subst, ◌∙◌, inl, inr, true, false, String, Option, none, some, List, [],
  ◌∷◌, any, returned, is_some, str_eq, eq_iff, leb_ℤ, Bool-cases, Has, arith, ok, err,
}
use wheelguard.Overrides.{OverrideRequest}
use wheelguard.Policy.{lookup}

-- What a revocation does not touch of a row.
abbrev SameOrigin : OverrideRow → OverrideRow → Type 0
SameOrigin a b = (a.project ≡ b.project) × (a.version ≡ b.version) × (a.created_at ≡ b.created_at)

module _ (id : String) (now : ℤ) (actor why : String) where
  revoke_rows-origin :
      (rows : List OverrideRow) (row : OverrideRow)
      → Has row (revoke_rows id now actor why rows)
      → (old : OverrideRow) × Has old rows × SameOrigin old row
  unfolding revoke_rows
  revoke_rows-origin [] row m = absurd m
  revoke_rows-origin (r ∷ rows) row (inr m) =
      let (old, k, same) = revoke_rows-origin rows row m in (old, inr k, same)
  revoke_rows-origin (r ∷ rows) row (inl e) = elim (Bool-cases (is_live id r)) [
    | inl k ↦
        (let q = rw k at e in
          (r, inl refl, (ap (λ x. x.project) q, ap (λ x. x.version) q, ap (λ x. x.created_at) q)))
    | inr k ↦
        (let q = rw k at e in
          (r, inl refl, (ap (λ x. x.project) q, ap (λ x. x.version) q, ap (λ x. x.created_at) q)))
  ]

  revoke_rows-live :
      (rows : List OverrideRow) (row : OverrideRow)
      → Has row (revoke_rows id now actor why rows)
      → is_live id row ≡ false
  unfolding revoke_rows
  revoke_rows-live [] row m = absurd m
  revoke_rows-live (r ∷ rows) row (inr m) = revoke_rows-live rows row m
  revoke_rows-live (r ∷ rows) row (inl e) = elim (Bool-cases (is_live id r)) [
    | inl k ↦ subst (λ x. is_live id x ≡ false) (rw k at e) (ground arith)
    | inr k ↦ subst (λ x. is_live id x ≡ false) (rw k at e) k
  ]

  revoke_rows-other :
      (rows : List OverrideRow) (row : OverrideRow)
      → Has row rows
      → is_live id row ≡ false
      → Has row (revoke_rows id now actor why rows)
  unfolding revoke_rows
  revoke_rows-other [] row m h = absurd m
  revoke_rows-other (r ∷ rows) row (inl e) h =
      inl (rw (subst (λ x. is_live id x ≡ false) (sym e) h) e)
  revoke_rows-other (r ∷ rows) row (inr m) h = inr (revoke_rows-other rows row m h)

  any_live :
      (rows : List OverrideRow)
      → any (is_live id) rows ≡ true
      → (row : OverrideRow) × Has row rows × (row.id ≡ id) × (is_some row.revoked_at ≡ false)
  any_live [] h = cc h
  any_live (r ∷ rows) h = elim (Bool-cases (is_live id r)) [
    | inl k ↦ (r, inl refl, (eq_iff r.id id).0 (ground arith), ground arith)
    | inr k ↦ (let (row, m, same, live) = any_live rows (rw k at h) in (row, inr m, same, live))
  ]

  was_live :
      (d e : Decisions) (replacement : Option String)
      → revoke_as why replacement d id actor now ≡ ok e
      → (row : OverrideRow) × Has row d.overrides × (row.id ≡ id) × (is_some row.revoked_at ≡ false)
  unfolding revoke_as
  was_live d e replacement h = elim (Bool-cases (any (is_live id) d.overrides)) [
    | inl k ↦ any_live d.overrides k
    | inr k ↦ cc (rw k at h)
  ]

  revoked :
      (d e : Decisions) (replacement : Option String)
      → revoke_as why replacement d id actor now ≡ ok e
      → e.overrides ≡ revoke_rows id now actor why d.overrides
  unfolding revoke_as
  revoked d e replacement h = elim (Bool-cases (any (is_live id) d.overrides)) [
    | inl k ↦ ap (λ r. elim r [ ok x ↦ x.overrides | err x ↦ e.overrides ]) (sym (rw k at h))
    | inr k ↦ cc (rw k at h)
  ]

other_id : (id : String) (row : OverrideRow) → ¬ (row.id ≡ id) → is_live id row ≡ false
other_id id row n = elim (Bool-cases (str_eq row.id id)) [
  | inl k ↦ absurd (n ((eq_iff row.id id).0 k))
  | inr k ↦ rw k refl
]

-- After a revocation that succeeds some row of the identifier, not revoked before, was there; every
-- row of the identifier is revoked; and every row of another identifier, and every row that was
-- revoked already, is there as it was.
pub revoke_override_lem :
    (d e : Decisions) (id actor : String) (now : ℤ)
    → revoke_override d id actor now ≡ ok e
    → ((row : OverrideRow) × Has row d.overrides × (row.id ≡ id) × (is_some row.revoked_at ≡ false))
      × ((row : OverrideRow) → Has row e.overrides → row.id ≡ id → is_some row.revoked_at ≡ true)
      × ((row : OverrideRow) → Has row d.overrides → ¬ (row.id ≡ id) → Has row e.overrides)
      × ((row : OverrideRow)
          → Has row d.overrides
          → is_some row.revoked_at ≡ true
          → Has row e.overrides)
unfolding revoke_override
revoke_override_lem d e id actor now h =
    let q = revoked id now actor "Revoked from admin UI" d e none h in
    rw q (
      was_live id now actor "Revoked from admin UI" d e none h,
      λ row m same.
          (let live = revoke_rows-live id now actor "Revoked from admin UI" d.overrides row m in
            let k = (eq_iff row.id id).1 same in ground arith),
      λ row m n.
          revoke_rows-other id now actor "Revoked from admin UI" d.overrides row m
            (other_id id row n),
      λ row m k.
          revoke_rows-other id now actor "Revoked from admin UI" d.overrides row m (ground arith),
    )

-- All rows of the project and version are older than `now`.
abbrev pub IsLatest : Decisions → OverrideRequest → ℤ → Type 0
IsLatest d request now =
    (row : OverrideRow)
    → Has row d.overrides
    → row.project ≡ request.project
    → row.version ≡ request.version
    → leb_ℤ now row.created_at ≡ false

module _ (d : Decisions) (id actor : String) (request : OverrideRequest) (now at : ℤ)
    (lives : unexpired at request.expires_at ≡ true) where
  fresh-IsActive : IsActive request.project at (new_row id request actor now)
  unfolding is_active
  fresh-IsActive =
      (is_active-IsActive request.project at (new_row id request actor now)).0
        (ground (arith, lives, eq_iff request.project request.project))

  inserted-wins :
      (replaces : Option String)
      → IsLatest d request now
      → (o : Option String)
      → IsInForce
          (insert_override id request actor now replaces d)
          request.project
          at
          request.version
          o
      → o ≡ some request.action
  unfolding insert_override
  inserted-wins replaces latest none f =
      absurd (f (new_row id request actor now) (inl refl) fresh-IsActive refl)
  inserted-wins replaces latest (some action) (row, inl e, a, v, same, newest) =
      sym (ap some (ap (λ r. r.action) e ∙ same))
  inserted-wins replaces latest (some action) (row, inr m, a, v, same, newest) =
      cc (newest (new_row id request actor now) (inl refl) fresh-IsActive refl, latest row m a.0 v)

-- An override that is created later than all others of its project and version is the one in
-- force, until it expires, whether or not it replaces another.
pub create_override-wins :
    (d e : Decisions) (id actor : String) (request : OverrideRequest) (now at : ℤ)
    (replaces : Option String)
    → IsLatest d request now
    → unexpired at request.expires_at ≡ true
    → create_override d id request actor now replaces ≡ ok e
    → lookup request.version (active_overrides e request.project at) ≡ some request.action
unfolding create_override
create_override-wins d e id actor request now at none latest lives h =
    let q : insert_override id request actor now none d ≡ e = cc h in
    subst
      (λ e. lookup request.version (active_overrides e request.project at) ≡ some request.action) q
      (inserted-wins d id actor request now at lives none latest _
        (active_overrides-IsInForce _ request.project at request.version))
create_override-wins d e id actor request now at (some previous) latest lives h =
    let (r, revoke, done) =
      returned (revoke_as "Replaced from admin UI" (some id) d previous actor now) _ h in
    let q : insert_override id request actor now (some previous) r ≡ e = cc done in
    let rows = revoked previous now actor "Replaced from admin UI" d r (some id) revoke in
    subst
      (λ e. lookup request.version (active_overrides e request.project at) ≡ some request.action) q
      (inserted-wins r id actor request now at lives (some previous)
        (λ row m p v.
          (let (old, k, (p', v', c)) =
              revoke_rows-origin previous now actor "Replaced from admin UI" d.overrides row
                (subst (Has row) rows m) in
            subst (λ t. leb_ℤ now t ≡ false) c (latest old k (p' ∙ p) (v' ∙ v))))
        _ (active_overrides-IsInForce _ request.project at request.version))
