-- ===== src/Advisories/Raises.antt =====
-- Which exceptions leave `OsvAdvisoryPolicy.apply`.
use wheelguard.Base.{
  ℕ, ℤ, ◌-ℤ◌, leb_ℤ, ◌≡◌, refl, String, Option, none, some, List, [], ◌∷◌, length, nat_eq, inl, inr,
  Bool-cases, Result, ok, err, ◌>>=◌,
}
use wheelguard.Advisories.{
  OsvReply, unreachable, undecodable, document, QueryError, http_error, invalid_response, not_json,
  all_dicts, checked_results, response_results, ids_in, advisory_ids, record_ids, read_reply,
  batches, query_batches, query_versions, scanned_versions, conclude, answer_or_query, evaluate,
}
use wheelguard.Database.{Database}
use wheelguard.Json.{Json, Fields, null, arr, obj, elements}
use wheelguard.Json.Dict.{get?, get}
use wheelguard.Models.{CachedAdvisories}
use wheelguard.Platform.{Platform}
use wheelguard.Vulnerabilities.{Advisories, is_nil, store}

-- An exception other than the one of a body that is no JSON.
abbrev Caught : {A : Type 0} → Result QueryError A → Type 0
Caught r = ¬ (r ≡ err not_json)

>>=-Caught :
    {A B : Type 0} (first : Result QueryError A) (next : A → Result QueryError B)
    → Caught first
    → ((a : A) → Caught (next a))
    → Caught (first >>= next)
>>=-Caught (ok a) next c d h = d a h
>>=-Caught (err x) next c d h = c (cc h)

checked-Caught : (results : List Json) (n : ℕ) → Caught (checked_results results n)
checked-Caught results n h = elim (Bool-cases (nat_eq (length results) n)) [
  | inr k ↦ cc (rw k at h)
  | inl k ↦ elim (Bool-cases (all_dicts results)) [
    | inl d ↦ cc (rw (k, d) at h)
    | inr d ↦ cc (rw (k, d) at h)
  ]
]

results-Caught : (raw : Json) (n : ℕ) → Caught (response_results raw n)
unfolding response_results
results-Caught (obj raw) n h = from_key (get "results" raw) h
  where
    from_key :
        (r : Json)
        → Caught (elim r [ arr xs ↦ checked_results (elements xs) n | _ ↦ err invalid_response ])
    from_key (arr xs) h = checked-Caught (elements xs) n h
    from_key null h = cc
    from_key _ h = cc
results-Caught null n h = cc
results-Caught _ n h = cc

ids-Caught : (r : Json) → Caught (advisory_ids r)
unfolding advisory_ids
ids-Caught (obj result) h = from_key (get? "vulns" result) h
  where
    from_key : (o : Option Json) → Caught (ids_in o)
    from_key none h = cc
    from_key (some (arr xs)) h = cc
    from_key (some null) h = cc
    from_key (some _) h = cc
ids-Caught null h = cc
ids-Caught _ h = cc

record_ids-Caught :
    (vs : List String) (rs : List Json) (m : Advisories) → Caught (record_ids vs rs m)
unfolding record_ids
record_ids-Caught [] rs m h = cc
record_ids-Caught (v ∷ vs) [] m h = cc
record_ids-Caught (v ∷ vs) (r ∷ rs) m h =
    >>=-Caught (advisory_ids r) (λ ids. record_ids vs rs (store v ids m)) (ids-Caught r)
      (λ ids. record_ids-Caught vs rs (store v ids m)) h

module _ (osv : String → List String → OsvReply) where
  abbrev pub SentNoJson : String → Type 0
  SentNoJson project = (batch : List String) × (osv project batch ≡ undecodable)

  read-raises :
      (project : String) (batch : List String)
      → read_reply (osv project batch) (length batch) ≡ err not_json
      → SentNoJson project
  unfolding read_reply
  read-raises project batch h = by_reply (osv project batch) refl h
    where
      by_reply :
          (reply : OsvReply)
          → osv project batch ≡ reply
          → read_reply reply (length batch) ≡ err not_json
          → SentNoJson project
      by_reply undecodable e h = (batch, e)
      by_reply unreachable e h = cc
      by_reply (document raw) e h = absurd (results-Caught raw (length batch) h)

  query-raises :
      (project : String) (bs : List (List String)) (m : Advisories)
      → query_batches osv project bs m ≡ err not_json
      → SentNoJson project
  unfolding query_batches
  query-raises project [] m h = cc
  query-raises project (b ∷ bs) m h =
      after_read (read_reply (osv project b) (length b)) (query-raises project bs)
        (read-raises project b) h
    where
      after_read :
          (r : Result QueryError (List Json))
          → ((n : Advisories) → query_batches osv project bs n ≡ err not_json → SentNoJson project)
          → (r ≡ err not_json → SentNoJson project)
          → (r >>= λ results. record_ids b results m >>= λ more. query_batches osv project bs more)
            ≡ err not_json
          → SentNoJson project
      after_read (err x) k read h = read (cc h)
      after_read (ok results) k read h =
          let (n, e) = recorded (record_ids b results m) (record_ids-Caught b results m) h in k n e
        where
          recorded :
              (r : Result QueryError Advisories)
              → Caught r
              → (r >>= λ more. query_batches osv project bs more) ≡ err not_json
              → (n : Advisories) × (query_batches osv project bs n ≡ err not_json)
          recorded (ok n) c h = (n, h)
          recorded (err x) c h = absurd (c (cc h))

  module _ (P : Platform) (versions_key : List String → String) (db : Database) (project : String)
      (ttl now : ℤ) (payload : Fields) where
    conclude-raises :
        (key : String) (cached : Option CachedAdvisories) (q : Result QueryError Advisories)
        {e : QueryError}
        → (conclude P db project key now payload cached q).0 ≡ err e
        → (e ≡ not_json) × (q ≡ err not_json)
    unfolding conclude
    conclude-raises key cached (ok m) h = cc
    conclude-raises key cached (err not_json) h = (cc h, refl)
    conclude-raises key cached (err http_error) h = cc
    conclude-raises key cached (err invalid_response) h = cc

    answer-raises :
        (versions : List String) (cached : Option CachedAdvisories) {e : QueryError}
        → (answer_or_query P osv versions_key db project versions ttl now payload cached).0 ≡ err e
        → (e ≡ not_json) × SentNoJson project
    unfolding answer_or_query query_versions
    answer-raises versions none h =
        let (l, r) = conclude-raises (versions_key versions) none _ h in
        (l, query-raises project (batches (length versions) versions) [] r)
    answer-raises versions (some c) h = elim (Bool-cases (leb_ℤ (now -ℤ c.checked_at) ttl)) [
      | inl k ↦ cc (rw k at h)
      | inr k ↦
          let (l, r) = conclude-raises (versions_key versions) (some c) _ (rw k at h) in
          (l, query-raises project (batches (length versions) versions) [] r)
    ]

    -- The OSV policy raises nothing but the exception of a body that is no JSON, and that only when
    -- OSV sent such a body.
    pub evaluate_raises :
        {e : QueryError}
        → (evaluate P osv versions_key db project ttl now payload).0 ≡ err e
        → (e ≡ not_json) × SentNoJson project
    unfolding evaluate
    evaluate_raises h = elim (Bool-cases (is_nil (scanned_versions P payload))) [
      | inl k ↦ cc (rw k at h)
      | inr k ↦ answer-raises (scanned_versions P payload) _ (rw k at h)
    ]
