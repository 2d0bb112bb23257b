-- ===== src/Advisories/Batches.antt =====
-- The batches of a query, and what a query that succeeds has recorded.
use wheelguard.Base.{
  ℕ, zero, suc, ◌≤◌, ◌≡◌, refl, ap, subst, ◌∙◌, String, some, List, [], ◌∷◌, ◌++◌, take, drop,
  length, nat_eq, nat_eq→eq, returned, str_eq, eq_iff, if◌then◌else◌, All, inl, inr, Bool-cases,
  Result, ok, err, ◌>>=◌, take-append-drop, length-drop, arith,
}
use wheelguard.Advisories.{
  OsvReply, unreachable, undecodable, document, QueryError, invalid_response, all_dicts,
  checked_results, response_results, advisory_ids, record_ids, read_reply, batches, query_batches,
  query_versions,
}
use wheelguard.Json.Dict.{get}
use wheelguard.Json.{Json, null, arr, obj, elements}
use wheelguard.Policy.{lookup}
use wheelguard.Vulnerabilities.{Advisories, store}

abbrev pub joined : List (List String) → List String
joined [] = []
joined (xs ∷ xss) = xs ++ joined xss

length-take-le : (n : ℕ) (xs : List String) → length (take n xs) ≤ n
length-take-le zero xs = omega arith
length-take-le (suc n) [] = omega arith
length-take-le (suc n) (x ∷ xs) = omega (arith, length-take-le n xs)

-- With as much fuel as there are versions the batches are the versions in their order, none left
-- out, at most 500 in a batch.
pub batches-joined :
    (fuel : ℕ) (versions : List String)
    → length versions ≤ fuel
    → (joined (batches fuel versions) ≡ versions)
      × All (λ batch. length batch ≤ 500) (batches fuel versions)
unfolding batches
batches-joined zero [] h = (refl, tt)
batches-joined zero (v ∷ vs) h = absurd (omega arith)
batches-joined (suc fuel) [] h = (refl, tt)
batches-joined (suc fuel) (v ∷ vs) h =
    let r = batches-joined fuel (drop 500 (v ∷ vs)) (omega (arith, length-drop 500 (v ∷ vs))) in
    (
      ap (◌++◌ (take 500 (v ∷ vs))) (r.0) ∙ take-append-drop 500 (v ∷ vs),
      (length-take-le 500 (v ∷ vs), r.1),
    )

pub lookup-store {ℓ} :
    {V : Type ℓ} (k j : String) (v : V) (m : List (String × V))
    → lookup j (store k v m) ≡ (if str_eq k j then some v else lookup j m)
unfolding lookup store
lookup-store k j v [] = refl
lookup-store k j v ((i, w) ∷ m) =
    ground (arith, eq_iff k j, eq_iff i k, eq_iff i j, lookup-store k j v m)

-- The dictionary has an entry for the version.
abbrev pub Evaluated : Advisories → String → Type 0
Evaluated m version = (ids : List String) × (lookup version m ≡ some ids)

Evaluated-store :
    (k j : String) (ids : List String) (m : Advisories)
    → Evaluated m j
    → Evaluated (store k ids m) j
Evaluated-store k j ids m (old, e) = elim (Bool-cases (str_eq k j)) [
  | inl h ↦ (ids, lookup-store k j ids m ∙ rw h)
  | inr h ↦ (old, lookup-store k j ids m ∙ rw (h, e))
]

Evaluated-first : (k : String) (ids : List String) (m : Advisories) → Evaluated (store k ids m) k
Evaluated-first k ids m = (ids, lookup-store k k ids m ∙ rw ((eq_iff k k).1 refl))

-- An entry that is there stays, and every version of the batch gets one.
abbrev Kept : List String → Advisories → Advisories → Type 0
Kept versions m m' = ((j : String) → Evaluated m j → Evaluated m' j) × All (Evaluated m') versions

record_one-Kept :
    (v : String) (vs : List String) (m : Advisories) {m' : Advisories}
    (i : Result QueryError (List String)) (next : Advisories → Result QueryError Advisories)
    → ((n : Advisories) → next n ≡ ok m' → Kept vs n m')
    → (i >>= λ ids. next (store v ids m)) ≡ ok m'
    → Kept (v ∷ vs) m m'
record_one-Kept v vs m (ok ids) next k h =
    let (keeps, all) = k (store v ids m) h in
    (λ j old. keeps j (Evaluated-store v j ids m old), (keeps v (Evaluated-first v ids m), all))
record_one-Kept v vs m (err x) next k h = cc

record_ids-Kept :
    (versions : List String) (results : List Json) (m : Advisories) {m' : Advisories}
    → length results ≡ length versions
    → record_ids versions results m ≡ ok m'
    → Kept versions m m'
unfolding record_ids
record_ids-Kept [] results m {m'} l e =
    (λ j old. subst (λ n. Evaluated n j) (let q : m ≡ m' = cc e in q) old, tt)
record_ids-Kept (v ∷ vs) [] m l e = absurd (omega (arith, l))
record_ids-Kept (v ∷ vs) (r ∷ rs) m l e =
    record_one-Kept v vs m (advisory_ids r) (record_ids vs rs)
      (λ n. record_ids-Kept vs rs n (omega (arith, l))) e

-- The results of a reply are as many as the versions that were asked for.
checked-length :
    (results : List Json) (n : ℕ) {out : List Json}
    → checked_results results n ≡ ok out
    → length out ≡ n
checked-length results n {out} h = elim (Bool-cases (nat_eq (length results) n)) [
  | inr k ↦ cc (rw k at h)
  | inl k ↦ elim (Bool-cases (all_dicts results)) [
    | inr d ↦ cc (rw (k, d) at h)
    | inl d ↦
        (let q : results ≡ out = cc (rw (k, d) at h) in rw (← q) (nat_eq→eq (length results) n k))
  ]
]

results-length :
    (raw : Json) (n : ℕ) {out : List Json} → response_results raw n ≡ ok out → length out ≡ n
unfolding response_results
results-length (obj raw) n {out} h = from_key (get "results" raw) h
  where
    from_key :
        (r : Json)
        → (elim r [ arr xs ↦ checked_results (elements xs) n | _ ↦ err invalid_response ]) ≡ ok out
        → length out ≡ n
    from_key (arr xs) h = checked-length (elements xs) n h
    from_key null h = cc
    from_key _ h = cc
results-length null n h = cc
results-length _ n h = cc

read_reply-length :
    (reply : OsvReply) (n : ℕ) {out : List Json} → read_reply reply n ≡ ok out → length out ≡ n
unfolding read_reply
read_reply-length unreachable n h = cc
read_reply-length undecodable n h = cc
read_reply-length (document raw) n h = results-length raw n h

All-join :
    (m m' : Advisories) (xs ys : List String)
    → ((j : String) → Evaluated m j → Evaluated m' j)
    → All (Evaluated m) xs
    → All (Evaluated m') ys
    → All (Evaluated m') (xs ++ ys)
All-join m m' [] ys k a b = b
All-join m m' (x ∷ xs) ys k a b = (k x a.0, All-join m m' xs ys k a.1 b)

module _ (osv : String → List String → OsvReply) (project : String) where
  batch-Kept :
      (batch : List String) (rest : List (List String)) (m : Advisories) {m' : Advisories}
      → ((n : Advisories) → query_batches osv project rest n ≡ ok m' → Kept (joined rest) n m')
      → query_batches osv project (batch ∷ rest) m ≡ ok m'
      → Kept (batch ++ joined rest) m m'
  unfolding query_batches
  batch-Kept batch rest m {m'} k h =
      let (results, read, h') = returned (read_reply (osv project batch) (length batch)) _ h in
      let (more, recorded, h'') = returned (record_ids batch results m) _ h' in
      let (kept, all) =
        record_ids-Kept batch results m (read_reply-length (osv project batch) (length batch) read)
          recorded in
      let (kept', all') = k more h'' in
      (λ j old. kept' j (kept j old), All-join more m' batch (joined rest) kept' all all')

  -- The same of every batch.
  query_batches-Kept :
      (bs : List (List String)) (m : Advisories) {m' : Advisories}
      → query_batches osv project bs m ≡ ok m'
      → Kept (joined bs) m m'
  unfolding query_batches
  query_batches-Kept [] m {m'} e =
      (λ j old. subst (λ n. Evaluated n j) (let q : m ≡ m' = cc e in q) old, tt)
  query_batches-Kept (b ∷ bs) m e = batch-Kept b bs m (λ n. query_batches-Kept bs n) e

  -- A query that succeeds returns an entry for every version that it was asked about.
  pub query_versions-Evaluated :
      (versions : List String) (m : Advisories)
      → query_versions osv project versions ≡ ok m
      → All (Evaluated m) versions
  unfolding query_versions
  query_versions-Evaluated versions m h =
      subst (All (Evaluated m)) (batches-joined (length versions) versions (omega arith)).0
        (query_batches-Kept (batches (length versions) versions) [] h).1
