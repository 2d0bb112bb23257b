-- ===== src/Refresh.antt =====
-- refresh.py: one round of `AdvisoryRefresher`, over any advisory policy.
pub mod Round
use wheelguard.Base.{ℕ, ℤ, suc, ◌-ℤ◌, String, Option, none, some, List, [], ◌∷◌, Result, ok, err}
use wheelguard.Database.{
  Database, get_project, list_advisory_targets, prune_advisory_targets, delete_advisory_target,
}
use wheelguard.Json.{Fields}
use wheelguard.Models.{AdvisoryResult, CachedProject}

-- `AdvisoryPolicy.apply` on the catalog, a project's name and its payload, with its exceptions `X`.
abbrev pub AdvisoryPolicy : Type 0 → Type 0
AdvisoryPolicy X = Database → String → Fields → Result X AdvisoryResult × Database

module _ {X : Type 0} (policy : AdvisoryPolicy X) where
  abbrev pub Rounds : Type 0
  Rounds = ℕ → Database → Result X ℕ × Database

  -- `evaluated += 1`, unless the policy raised
  unfoldable pub count_result :
      Rounds → ℕ → Result X AdvisoryResult × Database → Result X ℕ × Database
  count_result next evaluated (ok result, db) = next (suc evaluated) db
  count_result next evaluated (err e, db) = (err e, db)

  -- One target, by what the catalog has of it.
  unfoldable pub visit_target :
      Rounds → String → Option CachedProject → ℕ → Database → Result X ℕ × Database
  unfolding count_result
  visit_target next project none evaluated db = next evaluated (delete_advisory_target db project)
  visit_target next project (some cached) evaluated db =
      count_result next evaluated (policy db project cached.response.payload)

  unfoldable pub visit_targets : List String → ℕ → Database → Result X ℕ × Database
  unfolding visit_target
  visit_targets [] evaluated db = (ok evaluated, db)
  visit_targets (project ∷ targets) evaluated db =
      visit_target (visit_targets targets) project (get_project db project) evaluated db

  unfoldable pub refresh_once : ℤ → ℕ → ℤ → Database → Result X ℕ × Database
  unfolding visit_targets
  refresh_once active_window batch_size now db =
      let cutoff = now -ℤ active_window in
      visit_targets (list_advisory_targets db cutoff batch_size) 0
        (prune_advisory_targets db cutoff)
