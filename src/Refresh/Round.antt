-- ===== src/Refresh/Round.antt =====
-- What a round of the refresher counts, and which targets it deletes.
use wheelguard.Base.{
  ℕ, ℤ, suc, ◌+◌, ◌-ℤ◌, leb_ℤ, ◌≡◌, refl, sym, ap, subst, ◌∙◌, Bool, true, false, String, Option,
  none, some, List, [], ◌∷◌, select, length, is_some, if◌then◌else◌, Has, inl, inr, Bool-cases,
  Result, ok, err, str_eq, eq_iff, arith,
}
use wheelguard.Base.Table.{find, find-delete}
use wheelguard.Advisories.{
  OsvReply, QueryError, not_json, http_error, invalid_response, query_versions, scanned_versions,
  conclude, answer_or_query, evaluate,
}
use wheelguard.Database.{
  Database, as_hit, get_project, list_advisory_targets, prune_advisory_targets,
  delete_advisory_target, get_advisories, put_advisories,
}
use wheelguard.Json.{Fields}
use wheelguard.Models.{AdvisoryResult, CachedProject, CachedAdvisories}
use wheelguard.Platform.{Platform}
use wheelguard.Refresh.{AdvisoryPolicy, count_result, visit_target, visit_targets, refresh_once}
use wheelguard.Vulnerabilities.{Advisories, is_nil}

-- A change of the catalog that leaves the projects and the targets alone.
abbrev pub Leaves : Database → Database → Type 0
Leaves db db' = (db'.projects ≡ db.projects) × (db'.advisory_targets ≡ db.advisory_targets)

abbrev pub LeavesTables : {X : Type 0} → AdvisoryPolicy X → Type 0
LeavesTables policy =
    (db : Database) (project : String) (payload : Fields) → Leaves db (policy db project payload).1

abbrev pub has_project : Database → String → Bool
has_project db project = is_some (get_project db project)

-- The target is gone.
abbrev pub IsGone : Database → String → Type 0
IsGone db project = find str_eq project db.advisory_targets ≡ none

same_project :
    (db db' : Database) (project : String)
    → db'.projects ≡ db.projects
    → get_project db' project ≡ get_project db project
unfolding get_project
same_project db db' project e = ap (λ t. as_hit (find str_eq project t)) e

IsGone-delete :
    (db : Database) (project other : String)
    → IsGone db other
    → IsGone (delete_advisory_target db project) other
unfolding delete_advisory_target
IsGone-delete db project other g =
    find-delete str_eq eq_iff project other db.advisory_targets ∙ keep (str_eq project other)
  where
    keep : (b : Bool) → (if b then none else find str_eq other db.advisory_targets) ≡ none
    keep true = refl
    keep false = g

IsGone-deleted :
    (db : Database) (project : String) → IsGone (delete_advisory_target db project) project
unfolding delete_advisory_target
IsGone-deleted db project =
    find-delete str_eq eq_iff project project db.advisory_targets
    ∙ rw ((eq_iff project project).1 refl) refl

module _ {X : Type 0} (policy : AdvisoryPolicy X) (leaves : LeavesTables policy)
    (known : String → Bool) where
  -- What the loop promises from a catalog with these projects.
  abbrev Visited : List String → ℕ → Database → ℕ → Database → Type 0
  Visited targets evaluated db n db' =
      (n ≡ evaluated + length (select known targets))
      × ((p : String) → IsGone db p → IsGone db' p)
      × ((p : String) → Has p targets → known p ≡ false → IsGone db' p)

  abbrev Knows : Database → Type 0
  Knows db = (p : String) → has_project db p ≡ known p

  abbrev Promise : List String → Type 0
  Promise targets =
      (evaluated : ℕ) (db : Database) (n : ℕ)
      → Knows db
      → (visit_targets policy targets evaluated db).0 ≡ ok n
      → Visited targets evaluated db n (visit_targets policy targets evaluated db).1

  Knows-delete :
      (project : String) (db : Database) → Knows db → Knows (delete_advisory_target db project)
  unfolding delete_advisory_target get_project
  Knows-delete project db s p = s p

  Knows-prune : (cutoff : ℤ) (db : Database) → Knows db → Knows (prune_advisory_targets db cutoff)
  unfolding prune_advisory_targets get_project
  Knows-prune cutoff db s p = s p

  counted :
      (project : String) (targets : List String) (evaluated : ℕ) (db : Database)
      → Promise targets
      → (r : Result X AdvisoryResult × Database) {n : ℕ} → Leaves db r.1
      → Knows db
      → known project ≡ true
      → (count_result policy (visit_targets policy targets) evaluated r).0 ≡ ok n
      → Visited
          (project ∷ targets)
          evaluated
          db
          n
          (count_result policy (visit_targets policy targets) evaluated r).1
  unfolding count_result
  counted project targets evaluated db k (err e, db') l s t h = cc
  counted project targets evaluated db k (ok result, db') {n} l s t h =
      let (c, keeps, gone) =
        k (suc evaluated) db' n (λ p. ap is_some (same_project db db' p l.0) ∙ s p) h in
      (
        (let q : length (select known (project ∷ targets)) ≡ suc (length (select known targets)) =
              rw t refl in
            omega (arith, c, q)),
        (λ p g. keeps p (ap (find str_eq p) l.1 ∙ g)),
        (λ p m f. elim m [ inl e ↦ cc (e, t, f) | inr m' ↦ gone p m' f ]),
      )

  visit_one :
      (project : String) (targets : List String) (evaluated : ℕ) (db : Database)
      → Promise targets
      → (o : Option CachedProject) {n : ℕ} → get_project db project ≡ o
      → Knows db
      → (visit_target policy (visit_targets policy targets) project o evaluated db).0 ≡ ok n
      → Visited
          (project ∷ targets)
          evaluated
          db
          n
          (visit_target policy (visit_targets policy targets) project o evaluated db).1
  unfolding visit_target
  visit_one project targets evaluated db k (some cached) o s h =
      counted project targets evaluated db k (policy db project cached.response.payload)
        (leaves db project cached.response.payload) s (sym (s project) ∙ ap is_some o) h
  visit_one project targets evaluated db k none {n} o s h =
      let unknown : known project ≡ false = sym (s project) ∙ ap is_some o in
      let (c, keeps, gone) =
        k evaluated (delete_advisory_target db project) n (Knows-delete project db s) h in
      (
        (let q : length (select known (project ∷ targets)) ≡ length (select known targets) =
              rw unknown refl in
            omega (arith, c, q)),
        (λ p g. keeps p (IsGone-delete db project p g)),
        (λ p m f. elim m [
          | inl e ↦
              keeps p
                (subst (IsGone (delete_advisory_target db project)) e (IsGone-deleted db project))
          | inr m' ↦ gone p m' f
        ]),
      )

  visits : (targets : List String) → Promise targets
  unfolding visit_targets
  visits [] evaluated db n s h =
      (omega (arith, (let q : evaluated ≡ n = cc h in q)), (λ p g. g), (λ p m f. absurd m))
  visits (project ∷ targets) evaluated db n s h =
      visit_one project targets evaluated db (visits targets) (get_project db project) refl s h

module _ {X : Type 0} (policy : AdvisoryPolicy X) (leaves : LeavesTables policy) where
  -- A round that raises nothing, over a policy that leaves projects and targets alone, counts the
  -- targets that the catalog has a project of, and deletes every other target that it took up.
  pub refresh_once_lem :
      (window : ℤ) (batch_size : ℕ) (now : ℤ) (db : Database) {n : ℕ}
      → (refresh_once policy window batch_size now db).0 ≡ ok n
      → (n ≡ length (select (has_project db) (list_advisory_targets db (now -ℤ window) batch_size)))
        × ((p : String)
            → Has p (list_advisory_targets db (now -ℤ window) batch_size)
            → has_project db p ≡ false
            → IsGone (refresh_once policy window batch_size now db).1 p)
  unfolding refresh_once
  refresh_once_lem window batch_size now db {n} h =
      let (c, keeps, gone) =
        visits policy leaves (has_project db) (list_advisory_targets db (now -ℤ window) batch_size)
          0 (prune_advisory_targets db (now -ℤ window)) n
          (Knows-prune policy leaves (has_project db) (now -ℤ window) db (λ p. refl)) h in
      (omega (arith, c), gone)

module _ (P : Platform) (osv : String → List String → OsvReply)
    (versions_key : List String → String) (ttl now : ℤ) where
  -- The OSV policy, as the refresher calls it.
  abbrev pub osv_policy : AdvisoryPolicy QueryError
  osv_policy db project payload = evaluate P osv versions_key db project ttl now payload

  conclude-Leaves :
      (db : Database) (project key : String) (payload : Fields) (c : Option CachedAdvisories)
      (q : Result QueryError Advisories)
      → Leaves db (conclude P db project key now payload c q).1
  unfolding conclude put_advisories
  conclude-Leaves db project key payload c (ok m) = (refl, refl)
  conclude-Leaves db project key payload c (err not_json) = (refl, refl)
  conclude-Leaves db project key payload c (err http_error) = (refl, refl)
  conclude-Leaves db project key payload c (err invalid_response) = (refl, refl)

  answered-Leaves :
      (db : Database) (project : String) (payload : Fields) (vs : List String)
      (c : Option CachedAdvisories)
      → Leaves db (answer_or_query P osv versions_key db project vs ttl now payload c).1
  unfolding answer_or_query
  answered-Leaves db project payload vs none =
      conclude-Leaves db project (versions_key vs) payload none (query_versions osv project vs)
  answered-Leaves db project payload vs (some c) =
      elim (Bool-cases (leb_ℤ (now -ℤ c.checked_at) ttl)) [
        | inl h ↦ rw h (refl, refl)
        | inr h ↦ rw h (
            conclude-Leaves db project (versions_key vs) payload (some c)
              (query_versions osv project vs))
      ]

  -- The OSV policy writes no project and no target.
  pub osv_policy-LeavesTables : LeavesTables osv_policy
  unfolding evaluate
  osv_policy-LeavesTables db project payload =
      elim (Bool-cases (is_nil (scanned_versions P payload))) [
        | inl h ↦ rw h (refl, refl)
        | inr h ↦ rw h (
            answered-Leaves db project payload (scanned_versions P payload)
              (get_advisories db project (versions_key (scanned_versions P payload))))
      ]
