-- ===== src/Administration/Newest.antt =====
-- Which override is in force: the dictionary of `active_overrides` against the rows.
use wheelguard.Administration.{
  OverrideRow, Decisions, unexpired, is_active, newer, first_of_each, active_overrides,
}
use wheelguard.Base.{
  ℤ, ◌≡◌, refl, sym, ap, subst, ◌∙◌, inl, inr, true, false, String, Option, none, some, List, [],
  ◌∷◌, select, any, is_some, ◌↔◌, str_eq, eq_iff, leb_ℤ, if◌then◌else◌, Bool-cases, Has, All-of-Has,
  arith,
}
use wheelguard.Base.Filtered.{select-Filtered, Filtered-sound, Filtered-complete}
use wheelguard.Base.Sort.{sort, Has-of-sort}
use wheelguard.Base.Sorted.{IsSorted, Has-sort, sort-IsSorted}
use wheelguard.Policy.{lookup}

-- A row of the project that nobody revoked, and whose end, if it has one, is still to come.
abbrev pub IsActive : String → ℤ → OverrideRow → Type 0
IsActive project now row =
    (row.project ≡ project)
    × (row.revoked_at ≡ none)
    × ((at : ℤ) → row.expires_at ≡ some at → leb_ℤ at now ≡ false)

-- The action in force for a version: that of a newest active row of it, or none if there is none.
abbrev pub IsInForce : Decisions → String → ℤ → String → Option String → Type 0
IsInForce d project now version none =
    (row : OverrideRow) → Has row d.overrides → IsActive project now row → ¬ (row.version ≡ version)
IsInForce d project now version (some action) =
    (row : OverrideRow) × Has row d.overrides
    × IsActive project now row
    × (row.version ≡ version)
    × (row.action ≡ action)
    × ((other : OverrideRow)
        → Has other d.overrides
        → IsActive project now other
        → other.version ≡ version
        → leb_ℤ other.created_at row.created_at ≡ true)

missing : (o : Option ℤ) → is_some o ≡ false → o ≡ none
missing none h = refl
missing (some at) h = cc h

unexpired-later :
    (now : ℤ) (o : Option ℤ)
    → unexpired now o ≡ true
    → (at : ℤ) → o ≡ some at
    → leb_ℤ at now ≡ false
unexpired-later now none h at e = cc e
unexpired-later now (some t) h at e =
    subst (λ o. elim o [ none ↦ Unit | some x ↦ leb_ℤ x now ≡ false ]) e (ground arith)

later-unexpired :
    (now : ℤ) (o : Option ℤ)
    → ((at : ℤ) → o ≡ some at → leb_ℤ at now ≡ false)
    → unexpired now o ≡ true
later-unexpired now none h = refl
later-unexpired now (some t) h = rw (h t refl) refl

-- The condition of the query finds these rows.
pub is_active-IsActive :
    (project : String) (now : ℤ) (row : OverrideRow)
    → (is_active project now row ≡ true) ↔ IsActive project now row
unfolding is_active
is_active-IsActive project now row = (
  λ h. (
    (eq_iff row.project project).0 (ground arith),
    missing row.revoked_at (ground arith),
    unexpired-later now row.expires_at (ground arith),
  ),
  λ (p, r, e). rw (r, later-unexpired now row.expires_at e, (eq_iff row.project project).1 p) refl,
)

newer_asym : (a b : OverrideRow) → newer a b ≡ true → newer b a ≡ false
newer_asym a b h = ground arith

newer_neg_trans : (a b c : OverrideRow) → newer c b ≡ false → newer b a ≡ false → newer c a ≡ false
newer_neg_trans a b c h k = ground arith

abbrev of_version : String → List OverrideRow → Option OverrideRow
of_version v [] = none
of_version v (row ∷ rows) = if str_eq row.version v then some row else of_version v rows

abbrev action_in : Option OverrideRow → Option String
action_in none = none
action_in (some row) = some row.action

lookup-first_of_each :
    (v : String) (seen : List String) (rows : List OverrideRow)
    → lookup v (first_of_each seen rows)
      ≡ (if any (λ s. str_eq s v) seen then none else action_in (of_version v rows))
unfolding lookup first_of_each
lookup-first_of_each v seen [] = ground arith
lookup-first_of_each v seen (row ∷ rows) = ground (
  arith,
  eq_iff row.version v,
  lookup-first_of_each v seen rows,
  lookup-first_of_each v (row.version ∷ seen) rows,
)

-- The first row of a version in a list that is sorted by age is a newest one.
of_version-found :
    (v : String) (rows : List OverrideRow) (row : OverrideRow)
    → IsSorted newer rows
    → of_version v rows ≡ some row
    → Has row rows
      × (row.version ≡ v)
      × ((other : OverrideRow) → Has other rows → other.version ≡ v → newer other row ≡ false)
of_version-found v [] row s h = cc h
of_version-found v (r ∷ rows) row s h = elim (Bool-cases (str_eq r.version v)) [
  | inl k ↦
      let q : r ≡ row = (let q : some r ≡ some row = rw k at h in cc q) in
      subst
        (λ row.
          Has row (r ∷ rows)
          × (row.version ≡ v)
          × ((other : OverrideRow)
              → Has other (r ∷ rows)
              → other.version ≡ v
              → newer other row ≡ false))
        q
        (
          inl refl,
          (eq_iff r.version v).0 k,
          λ other m e. elim m [
            | inl same ↦ subst (λ o. newer o r ≡ false) same (ground arith)
            | inr later ↦ All-of-Has (λ o. newer o r ≡ false) rows s.0 later
          ],
        )
  | inr k ↦
      let (m, e, newest) = of_version-found v rows row s.1 (rw k at h) in
      (
        inr m,
        e,
        λ other m' e'. elim m' [
          | inl same ↦ cc (k, (eq_iff r.version v).1 (ap (λ o. o.version) same ∙ e'))
          | inr later ↦ newest other later e'
        ],
      )
]

of_version-missing :
    (v : String) (rows : List OverrideRow) (row : OverrideRow)
    → of_version v rows ≡ none
    → Has row rows
    → ¬ (row.version ≡ v)
of_version-missing v [] row h m e = absurd m
of_version-missing v (r ∷ rows) row h m e = elim (Bool-cases (str_eq r.version v)) [
  | inl k ↦ cc (rw k at h)
  | inr k ↦ elim m [
    | inl same ↦ cc (k, (eq_iff r.version v).1 (ap (λ o. o.version) same ∙ e))
    | inr later ↦ of_version-missing v rows row (rw k at h) later e
  ]
]

module _ (d : Decisions) (project : String) (now : ℤ) where
  abbrev active_rows : List OverrideRow
  active_rows = select (is_active project now) d.overrides

  sort_rows-IsSorted : IsSorted newer (sort newer active_rows)
  sort_rows-IsSorted = sort-IsSorted newer newer_asym newer_neg_trans active_rows

  sort_rows-IsActive :
      (row : OverrideRow)
      → Has row (sort newer active_rows)
      → IsActive project now row × Has row d.overrides
  sort_rows-IsActive row m =
      Filtered-sound
        (select-Filtered (IsActive project now) (is_active project now)
          (is_active-IsActive project now) d.overrides)
        (Has-of-sort newer row active_rows m)

  there_active :
      (row : OverrideRow)
      → IsActive project now row
      → Has row d.overrides
      → Has row (sort newer active_rows)
  there_active row a m = Has-sort newer row active_rows (
      Filtered-complete
        (select-Filtered (IsActive project now) (is_active project now)
          (is_active-IsActive project now) d.overrides)
        a m)

  in_force :
      (version : String) (o : Option OverrideRow)
      → of_version version (sort newer active_rows) ≡ o
      → IsInForce d project now version (action_in o)
  in_force version none h = λ row m a e.
      of_version-missing version (sort newer active_rows) row h (there_active row a m) e
  in_force version (some row) h =
      let (m, e, newest) =
        of_version-found version (sort newer active_rows) row sort_rows-IsSorted h in
      let (a, there) = sort_rows-IsActive row m in
      (
        row,
        there,
        a,
        e,
        refl,
        λ other m' a' e'. (let n = newest other (there_active other a' m') e' in ground arith),
      )

  -- At every moment the dictionary has a version's override in force: the action of a newest row of
  -- the project and version that has no time of revocation and no expiry up to that moment, and
  -- nothing for a version without such a row.
  pub active_overrides-IsInForce :
      (version : String)
      → IsInForce d project now version (lookup version (active_overrides d project now))
  unfolding active_overrides
  active_overrides-IsInForce version =
      subst (IsInForce d project now version)
        (sym (lookup-first_of_each version [] (sort newer active_rows)))
        (in_force version (of_version version (sort newer active_rows)) refl)
