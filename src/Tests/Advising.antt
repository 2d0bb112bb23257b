-- ===== src/Tests/Advising.antt =====
-- The OSV policy on the sample project.
use wheelguard.Base.{
  ends_with, leb_ℤ→le, ◌≤◌, pos, ◌-ℤ◌, ◌≡◌, refl, String, none, List, [], ◌∷◌, select, length, All,
  ok, err, arith,
}
use wheelguard.Base.Sort.{sort, insert, unique_from}
use wheelguard.Base.Table.{find}
use wheelguard.Advisories.{
  OsvReply, unreachable, undecodable, document, QueryError, http_error, not_json, response_results,
  advisory_ids, record_ids, read_reply, batches, query_batches, query_versions, scanned_versions,
  apply_scan, conclude, answer_or_query, evaluate,
}
use wheelguard.Advisories.Batches.{Evaluated, joined, batches-joined, query_versions-Evaluated}
use wheelguard.Advisories.Marked.{is_vulnerable, apply_scan-apply_advisories}
use wheelguard.Advisories.Raises.{evaluate_raises, SentNoJson}
use wheelguard.Advisories.Scans.{hit_after_scan, marked_in_outage, get_advisories-put_advisories}
use wheelguard.Database.{Database, empty, get_advisories, put_advisories}
use wheelguard.Json.{Json, str, arr, obj, nil, cons, end, field}
use wheelguard.Json.Dict.{get?, get}
use wheelguard.Policy.{filename_version}
use wheelguard.Policy.Release.Visibility.{files_of}
use wheelguard.Vulnerabilities.{
  Advisories, store, version_texts, apply_advisories, sorted_ids, identifiers,
}
use wheelguard.Tests.Samples.{sample, two_releases}

abbrev key_of : List String → String
key_of versions = "k"

-- The first release has an advisory, the second has none.
abbrev reply : Json
reply =
    let vulnerable_release =
      obj (field "vulns" (arr (cons (obj (field "id" (str "X") end)) nil)) end) in
    obj (field "results" (arr (cons vulnerable_release (cons (obj end) nil))) end)

abbrev answers : String → List String → OsvReply
answers project batch = document reply

abbrev fails : String → List String → OsvReply
fails project batch = unreachable

abbrev garbled : String → List String → OsvReply
garbled project batch = undecodable

abbrev evaluated : Advisories
evaluated = ("1", "X" ∷ []) ∷ ("2", []) ∷ []

scanned : scanned_versions sample two_releases ≡ "1" ∷ "2" ∷ []
unfolding scanned_versions sort insert unique_from version_texts filename_version get get? ends_with
scanned = refl

answered : query_versions answers "a" (scanned_versions sample two_releases) ≡ ok evaluated
unfolding query_versions query_batches batches read_reply response_results record_ids advisory_ids
    sorted_ids identifiers sort insert unique_from store get get?
answered = rw scanned refl

failed : query_versions fails "a" (scanned_versions sample two_releases) ≡ err http_error
unfolding query_versions query_batches batches read_reply
failed = rw scanned refl

garbled_raises :
    (evaluate sample garbled key_of empty "a" (pos 60) (pos 0) two_releases).0 ≡ err not_json
unfolding evaluate answer_or_query conclude query_versions query_batches batches read_reply
    get_advisories find
garbled_raises = rw scanned refl

evaluate_raises_example : ◌≡◌ {A = QueryError} not_json not_json × SentNoJson garbled "a"
evaluate_raises_example =
    evaluate_raises garbled sample key_of empty "a" (pos 60) (pos 0) two_releases garbled_raises

query_versions-Evaluated_example : All (Evaluated evaluated) (scanned_versions sample two_releases)
query_versions-Evaluated_example =
    query_versions-Evaluated answers "a" (scanned_versions sample two_releases) evaluated answered

batches-joined_example :
    (joined (batches 2 ("1" ∷ "2" ∷ [])) ≡ "1" ∷ "2" ∷ [])
    × All (λ batch. length batch ≤ 500) (batches 2 ("1" ∷ "2" ∷ []))
batches-joined_example = batches-joined 2 ("1" ∷ "2" ∷ []) (omega arith)

apply_scan-apply_advisories_example : apply_scan sample two_releases evaluated "MISS" ≡ record {
  payload = apply_advisories sample two_releases evaluated;
  status = "MISS";
  vulnerable_files = length (select (is_vulnerable sample evaluated) (files_of two_releases));
}
apply_scan-apply_advisories_example =
    apply_scan-apply_advisories sample evaluated two_releases "MISS"

nothing_scanned_yet : get_advisories empty "a" "k" ≡ none
unfolding get_advisories
nothing_scanned_yet = refl

hit_after_scan_example :
    ((evaluate sample answers key_of empty "a" (pos 60) (pos 0) two_releases).0
      ≡ ok (apply_scan sample two_releases evaluated "MISS"))
    × (evaluate sample fails key_of
          (evaluate sample answers key_of empty "a" (pos 60) (pos 0) two_releases).1
          "a"
          (pos 60)
          (pos 30)
          two_releases
        ≡ (
          ok (apply_scan sample two_releases evaluated "HIT"),
          (evaluate sample answers key_of empty "a" (pos 60) (pos 0) two_releases).1,
        ))
unfolding ◌-ℤ◌
hit_after_scan_example =
    hit_after_scan sample key_of empty "a" (pos 60) (pos 0) two_releases answers fails (pos 30)
      evaluated (rw scanned refl) (λ c e. cc (nothing_scanned_yet, e)) answered
      (leb_ℤ→le (pos 30 -ℤ pos 0) (pos 60) refl)

abbrev after_scan : Database
after_scan = put_advisories empty "a" "k" evaluated (pos 0)

marked_in_outage_example :
    (status : String) × (evaluate sample fails key_of after_scan "a" (pos 60) (pos 100) two_releases
      ≡ (ok (apply_scan sample two_releases evaluated status), after_scan))
marked_in_outage_example =
    marked_in_outage sample fails key_of after_scan "a" (pos 60) (pos 100) two_releases
      (record { advisories = evaluated; checked_at = pos 0 }) http_error (rw scanned refl)
      (get_advisories-put_advisories empty "a" "k" evaluated (pos 0)) failed (λ e. cc e)
