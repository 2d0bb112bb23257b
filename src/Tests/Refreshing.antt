-- ===== src/Tests/Refreshing.antt =====
-- One round of the refresher: one project that the catalog has, one that it has not.
use wheelguard.Base.{
  pos, ◌-ℤ◌, ◌≡◌, refl, false, String, none, List, [], ◌∷◌, select, length, Has, ok,
}
use wheelguard.Base.Sort.{sort, insert}
use wheelguard.Base.Table.{find, delete}
use wheelguard.Advisories.{OsvReply, unreachable, evaluate, scanned_versions}
use wheelguard.Database.{
  Database, as_hit, get_project, list_advisory_targets, prune_advisory_targets,
  delete_advisory_target,
}
use wheelguard.Json.{end}
use wheelguard.Json.Dict.{get?}
use wheelguard.Models.{CachedProject}
use wheelguard.Refresh.{refresh_once, visit_targets, visit_target, count_result}
use wheelguard.Refresh.Round.{
  has_project, IsGone, osv_policy, osv_policy-LeavesTables, refresh_once_lem,
}
use wheelguard.Vulnerabilities.{version_texts}
use wheelguard.Tests.Samples.{sample}
use wheelguard.Base.Sort.{unique_from}

abbrev known : CachedProject
known = record {
  response = record { payload = end; last_serial = none; cache_status = "MISS" };
  fetched_at = pos 0;
}

abbrev catalog : Database
catalog = record {
  projects = ("a", known) ∷ [];
  artifacts = [];
  advisory_scans = [];
  advisory_targets = ("a", pos 90) ∷ ("b", pos 80) ∷ ("c", pos 10) ∷ [];
}

abbrev silent : String → List String → OsvReply
silent project batch = unreachable

abbrev key_of : List String → String
key_of versions = "k"

one_round :
    (refresh_once
      (osv_policy sample silent key_of (pos 60) (pos 100))
      (pos 50)
      25
      (pos 100)
      catalog).0
    ≡ ok 1
unfolding refresh_once visit_targets visit_target count_result list_advisory_targets sort insert
    prune_advisory_targets delete_advisory_target delete get_project as_hit find evaluate
    scanned_versions unique_from version_texts get? ◌-ℤ◌
one_round = refl

refresh_once_lem_example :
    (1
      ≡ length
          (select (has_project catalog) (list_advisory_targets catalog (pos 100 -ℤ pos 50) 25)))
    × ((p : String)
        → Has p (list_advisory_targets catalog (pos 100 -ℤ pos 50) 25)
        → has_project catalog p ≡ false
        → IsGone
            (refresh_once
              (osv_policy sample silent key_of (pos 60) (pos 100))
              (pos 50)
              25
              (pos 100)
              catalog).1
            p)
refresh_once_lem_example =
    refresh_once_lem (osv_policy sample silent key_of (pos 60) (pos 100))
      (osv_policy-LeavesTables sample silent key_of (pos 60) (pos 100)) (pos 50) 25 (pos 100)
      catalog one_round
