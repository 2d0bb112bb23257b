-- ===== src/Advisories.antt =====
-- advisories.py: `OsvAdvisoryPolicy` and `NoopAdvisoryPolicy`. The OSV service answers a batch of
-- versions of a project as a function of both: one `apply` sends a batch once.
pub mod Batches
pub mod Marked
pub mod Raises
pub mod Scans
use wheelguard.Base.{
  ℕ, ℤ, zero, suc, ◌+◌, ◌-ℤ◌, leb_ℤ, Bool, true, false, String, Option, none, some, List, [], ◌∷◌,
  take, drop, length, nat_eq, is_empty, join, map, ◌<>◌, str_eq, if◌then◌else◌, Result, ok, err,
  ◌>>=◌,
}
use wheelguard.Base.Sort.{sort, unique_from}
use wheelguard.Cache.{lifetime}
use wheelguard.Database.{Database, get_advisories, put_advisories}
use wheelguard.Json.{Json, Fields, null, str, arr, obj, items, elements, is_dict}
use wheelguard.Json.Dict.{get?, get, put, list_of}
use wheelguard.Models.{AdvisoryResult, CachedAdvisories}
use wheelguard.Platform.{Platform}
use wheelguard.Policy.{filename_version}
use wheelguard.Vulnerabilities.{
  Advisories, store, sorted_ids, text_lt, version_texts, is_nil, advisories_of,
}

-- `unreachable` is any `httpx.HTTPError`, the one of `raise_for_status` included; `undecodable` is
-- a body on which `response.json()` raises `ValueError`.
pub data OsvReply : Type 0 where
  unreachable undecodable : OsvReply
  document : Json → OsvReply

-- The exceptions of a query. `apply` catches the first two.
pub data QueryError : Type 0 where
  http_error invalid_response not_json : QueryError

abbrev pub all_dicts : List Json → Bool
all_dicts [] = true
all_dicts (r ∷ rs) = if is_dict r then all_dicts rs else false

abbrev pub checked_results : List Json → ℕ → Result QueryError (List Json)
checked_results results expected =
    if nat_eq (length results) expected
    then (if all_dicts results then ok results else err invalid_response)
    else err invalid_response

unfoldable pub response_results : Json → ℕ → Result QueryError (List Json)
response_results (obj raw) expected = elim (get "results" raw) [
  | arr results ↦ checked_results (elements results) expected
  | _ ↦ err invalid_response
]
response_results _ expected = err invalid_response

abbrev pub ids_in : Option Json → Result QueryError (List String)
ids_in none = ok []
ids_in (some (arr vulnerabilities)) = ok (sorted_ids (elements vulnerabilities))
ids_in (some _) = err invalid_response

-- `_advisory_ids`, of a result that is a dictionary
unfoldable pub advisory_ids : Json → Result QueryError (List String)
advisory_ids (obj result) = ids_in (get? "vulns" result)
advisory_ids _ = err invalid_response

-- `for version, result in zip(batch, results): advisories[version] = …`
unfoldable pub record_ids : List String → List Json → Advisories → Result QueryError Advisories
record_ids (version ∷ versions) (result ∷ results) advisories =
    advisory_ids result >>= λ ids. record_ids versions results (store version ids advisories)
record_ids _ _ advisories = ok advisories

-- The results of one reply.
unfoldable pub read_reply : OsvReply → ℕ → Result QueryError (List Json)
unfolding response_results
read_reply unreachable expected = err http_error
read_reply undecodable expected = err not_json
read_reply (document raw) expected = response_results raw expected

-- `versions[offset : offset + 500]` for each offset; the fuel bounds their number.
unfoldable pub batches : ℕ → List String → List (List String)
batches zero versions = []
batches (suc fuel) versions =
    let rest = batches fuel (drop 500 versions) in
    if is_nil versions then [] else take 500 versions ∷ rest

module _ (osv : String → List String → OsvReply) where
  unfoldable pub query_batches :
      String → List (List String) → Advisories → Result QueryError Advisories
  query_batches project [] advisories = ok advisories
  query_batches project (batch ∷ rest) advisories =
      read_reply (osv project batch) (length batch) >>= λ results.
      record_ids batch results advisories >>= λ more. query_batches project rest more

  unfoldable pub query_versions : String → List String → Result QueryError Advisories
  unfolding query_batches batches
  query_versions project versions = query_batches project (batches (length versions) versions) []

module _ (P : Platform) where
  -- `sorted` of the set of version texts, by the order of texts
  unfoldable pub scanned_versions : Fields → List String
  unfolding sort unique_from
  scanned_versions payload =
      sort text_lt (unique_from str_eq [] (version_texts P (list_of (get? "files" payload))))

  -- `reason` after the text that was there, if it is a text that is not empty
  unfoldable pub reason_after : Json → String → String
  reason_after (str existing) reason =
      if is_empty existing then reason else existing <> "; " <> reason
  reason_after _ reason = reason

  -- The rest of the loop's body for a dictionary, after `identifiers`: the file, and what it adds to
  -- `vulnerable_files`.
  unfoldable pub marked_file : List String → Fields → Json × ℕ
  unfolding reason_after
  marked_file identifiers file = if is_nil identifiers then (obj file, 0) else (
    obj (
        put "wheelguard-advisories" (arr (items (map str identifiers))) (
          put "yanked"
            (str (
              reason_after (get "yanked" file)
                ("Wheelguard advisories: " <> join ", " identifiers)))
            file)),
    1,
  )

  -- `advisories.get(str(version), []) if version is not None else []`
  abbrev pub identifiers_of : Advisories → Option P.Version → List String
  identifiers_of advisories none = []
  identifiers_of advisories (some version) = advisories_of (P.version_text version) advisories

  abbrev pub visited : Advisories → Json → Json × ℕ
  visited advisories (obj file) =
      marked_file (identifiers_of advisories (filename_version P (get "filename" file))) file
  visited advisories file = (file, 0)

  -- The loop of `_apply_advisories`: the files that it leaves, and `vulnerable_files`.
  unfoldable pub mark_files : Advisories → List Json → List Json × ℕ
  unfolding marked_file
  mark_files advisories [] = ([], 0)
  mark_files advisories (file ∷ files) =
      let (first, n) = visited advisories file in
      let (marked, m) = mark_files advisories files in (first ∷ marked, n + m)

  unfoldable pub marked_result : Advisories → String → Option Json → Fields → AdvisoryResult
  unfolding mark_files
  marked_result advisories status (some (arr files)) payload = record {
    payload = put "files" (arr (items (mark_files advisories (elements files)).0)) payload;
    status = status;
    vulnerable_files = (mark_files advisories (elements files)).1;
  }
  marked_result advisories status _ payload = record {
    payload = payload;
    status = status;
    vulnerable_files = 0;
  }

  -- `_apply_advisories`
  unfoldable pub apply_scan : Fields → Advisories → String → AdvisoryResult
  unfolding marked_result
  apply_scan payload advisories status =
      marked_result advisories status (get? "files" payload) payload

  abbrev pub unmarked : Fields → String → AdvisoryResult
  unmarked payload status = record { payload = payload; status = status; vulnerable_files = 0 }

  -- `except (httpx.HTTPError, AdvisoryResponseError)`, with the scan that is cached, if any
  abbrev pub without_answer : Fields → Option CachedAdvisories → AdvisoryResult
  without_answer payload (some cached) = apply_scan payload cached.advisories "STALE"
  without_answer payload none = unmarked payload "ERROR"

  -- What follows the query. An exception that `apply` does not catch leaves it.
  unfoldable pub conclude :
      Database
      → String
      → String
      → ℤ
      → Fields
      → Option CachedAdvisories
      → Result QueryError Advisories
      → Result QueryError AdvisoryResult × Database
  conclude db project key now payload cached (ok advisories) =
      (ok (apply_scan payload advisories "MISS"), put_advisories db project key advisories now)
  conclude db project key now payload cached (err not_json) = (err not_json, db)
  conclude db project key now payload cached (err _) = (ok (without_answer payload cached), db)

  module _ (osv : String → List String → OsvReply) (versions_key : List String → String) where
    -- `apply` once the cached scan is known.
    unfoldable pub answer_or_query :
        Database
        → String
        → List String
        → ℤ
        → ℤ
        → Fields
        → Option CachedAdvisories
        → Result QueryError AdvisoryResult × Database
    unfolding conclude
    answer_or_query db project versions ttl now payload none =
        conclude db project (versions_key versions) now payload none
          (query_versions osv project versions)
    answer_or_query db project versions ttl now payload (some cached) =
        if leb_ℤ (now -ℤ cached.checked_at) ttl
        then (ok (apply_scan payload cached.advisories "HIT"), db)
        else conclude db project (versions_key versions) now payload (some cached)
            (query_versions osv project versions)

    unfoldable pub evaluate :
        Database → String → ℤ → ℤ → Fields → Result QueryError AdvisoryResult × Database
    unfolding answer_or_query
    evaluate db project ttl now payload =
        let versions = scanned_versions payload in
        if is_nil versions
        then (ok (unmarked payload "MISS"), db)
        else answer_or_query db project versions ttl now payload
            (get_advisories db project (versions_key versions))

    -- `OsvAdvisoryPolicy.apply`, with `ttl or self._ttl`
    unfoldable pub osv_apply :
        ℤ → Database → String → Fields → Option ℤ → ℤ → Result QueryError AdvisoryResult × Database
    unfolding evaluate lifetime
    osv_apply default db project payload ttl now =
        evaluate db project (lifetime ttl default) now payload

-- `NoopAdvisoryPolicy.apply`
unfoldable pub noop_apply : Fields → AdvisoryResult
noop_apply payload = record { payload = payload; status = "DISABLED"; vulnerable_files = 0 }
