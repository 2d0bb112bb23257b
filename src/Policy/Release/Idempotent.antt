-- ===== src/Policy/Release/Idempotent.antt =====
-- A second run of the policy changes nothing, and a policy without overrides is `MinimumAgePolicy`.
use mathlib.Core.Path.{fun_ext}
use wheelguard.Base.{
  ◌-ℤ◌, ℤ, ◌≡◌, refl, sym, ap, subst, ◌∙◌, Bool, true, false, not, Option, none, some, List, [],
  ◌∷◌, any, select, All, All-select, select-All, arith, Option-cases, ok, inl, inr,
}
use wheelguard.Json.{Json, Fields, null, str, arr, obj, items, elements}
use wheelguard.Json.Dict.{get?, put-get?, items-elements, get}
use wheelguard.Platform.{Platform, Moment, aware, naive}
use wheelguard.Policy.{
  PolicyResult, Scan, finish, prune_versions, only_hidden, nothing_scanned, scan, lookup,
  filename_version, upload_time, file_overflows, unless_raised,
}
use wheelguard.Policy.Payload.{get?-finish_files}
use wheelguard.Policy.MinimumAge
use wheelguard.Policy.Release.{
  ReleasePolicy, Overrides, read_overflows, step, apply, action_of, fallback_admits,
}
use wheelguard.Policy.Release.Decision.{admits}
use wheelguard.Policy.Release.Visibility.{files_of, outcome, files-outcome, result-outcome}

select_none :
    {A : Type 0} (p : A → Bool) (xs : List A)
    → All (λ x. p x ≡ true) xs
    → select (λ x. not (p x)) xs ≡ []
select_none p [] h = refl
select_none p (x ∷ xs) h = rw (h.0, select_none p xs h.1)

module _ (P : Platform) (visible : List P.Version) where
  -- With no hidden version nothing is removed.
  none_hidden : (v : Json) → not (only_hidden P v [] visible) ≡ true
  unfolding only_hidden
  none_hidden (str raw) = elim (Option-cases (P.parse_version raw)) [
    | inl n ↦ rw (n, only_hidden)
    | inr (u, e) ↦ rw (e, only_hidden)
  ]
  none_hidden null = refl
  none_hidden _ = refl

  all_kept : (vs : List Json) → select (λ v. not (only_hidden P v [] visible)) vs ≡ vs
  all_kept [] = refl
  all_kept (v ∷ vs) = rw (none_hidden v, all_kept vs)

  prune_nothing :
      (shown : List Json) (o : Option Json) (result : Fields)
      → get? "versions" result ≡ o
      → prune_versions P
          (record { visible = shown; hidden_versions = []; visible_versions = visible })
          o
          result
        ≡ result
  unfolding prune_versions
  prune_nothing shown (some (arr values)) result h =
      rw (all_kept (elements values), items-elements values)
        (put-get? "versions" (arr values) result h)
  prune_nothing shown _ result h = refl

module _ (P : Platform) (p : ReleasePolicy) (overrides : Overrides) (fallback : Option ℤ)
    (now : ℤ) where
  abbrev test : Json → Bool
  test = admits P p overrides fallback now

  -- A payload of which every file is admitted comes back as it is.
  settled :
      (payload : Fields)
      → get? "files" payload ≡ some (arr (items (files_of payload)))
      → All (λ f. test f ≡ true) (files_of payload)
      → (outcome P p payload now overrides fallback).payload ≡ payload
  unfolding outcome finish
  settled payload h all =
      rw
        (
          select-All test (files_of payload) all,
          select_none test (files_of payload) all,
          put-get? "files" _ payload h,
        )
        (prune_nothing P _ (files_of payload) (get? "versions" payload) payload refl)

  outcome_settled :
      (payload : Fields)
      → (outcome P p
          (outcome P p payload now overrides fallback).payload
          now
          overrides
          fallback).payload
        ≡ (outcome P p payload now overrides fallback).payload
  outcome_settled payload =
      let o = outcome P p payload now overrides fallback in
      let files = files-outcome P p payload now overrides fallback in
      settled o.payload
        (rw files (unfold outcome in get?-finish_files P _ payload (files_of payload)))
        (rw files (All-select test (files_of payload)))

  -- Applying the policy to its own result, at the same time, changes nothing.
  pub apply_twice :
      (payload : Fields) {r r' : PolicyResult}
      → apply P p payload (aware now) overrides fallback ≡ ok r
      → apply P p r.payload (aware now) overrides fallback ≡ ok r'
      → r'.payload ≡ r.payload
  apply_twice payload {r} h h' =
      ap (λ (q : PolicyResult). q.payload)
        (sym (result-outcome P p r.payload now overrides fallback h'))
      ∙ subst
          (λ (q : PolicyResult). (outcome P p q.payload now overrides fallback).payload ≡ q.payload)
          (result-outcome P p payload now overrides fallback h) (outcome_settled payload)

no_action : (P : Platform) (o : Option P.Version) → action_of P [] o ≡ none
unfolding lookup
no_action P none = refl
no_action P (some v) = refl

no_fallback :
    (fallback : Option ℤ) (now : ℤ) (o : Option ℤ) → fallback_admits none fallback now o ≡ false
no_fallback (some age) now (some t) = refl
no_fallback (some age) now none = refl
no_fallback none now o = refl

abbrev pub age_only : ReleasePolicy → MinimumAge.MinimumAgePolicy
age_only p = record {
  minimum_age = p.minimum_age;
  allow_missing_upload_time = p.allow_missing_upload_time;
}

steps_agree :
    (P : Platform) (p : ReleasePolicy) (fallback : Option ℤ) (now : ℤ) (f : Json)
    (s : Scan P.Version)
    → step P p [] fallback now f s ≡ MinimumAge.step P (age_only p) (now -ℤ p.minimum_age) f s
unfolding step MinimumAge.step
steps_agree P p fallback now (obj f) s =
    rw
      (
        no_action P (filename_version P (get "filename" f)),
        no_fallback fallback now (upload_time P (get "upload-time" f)),
      )
      (ground arith)
steps_agree P p fallback now null s = refl
steps_agree P p fallback now _ s = refl

reads_agree : (P : Platform) (f : Json) → read_overflows P [] f ≡ file_overflows P f
unfolding read_overflows file_overflows
reads_agree P (obj f) = rw (no_action P (filename_version P (get "filename" f))) refl
reads_agree P null = refl
reads_agree P _ = refl

-- Without overrides the release policy is the minimum-age policy, for every time, also where it
-- refuses the time.
pub apply_no_overrides :
    (P : Platform) (p : ReleasePolicy) (payload : Fields) (now : Moment) (fallback : Option ℤ)
    → apply P p payload now [] fallback ≡ MinimumAge.apply P (age_only p) payload now
unfolding apply MinimumAge.apply
apply_no_overrides P p payload (naive t) fallback = refl
apply_no_overrides P p payload (aware t) fallback =
    ap
      (λ g.
        unless_raised (any (read_overflows P []) (files_of payload))
          (finish P payload (files_of payload) (scan g (files_of payload) nothing_scanned)))
      (fun_ext λ f. fun_ext λ s. steps_agree P p fallback t f s)
    ∙ ap
        (λ g. unless_raised (any g (files_of payload)) (
          finish P payload (files_of payload) (
            scan (MinimumAge.step P (age_only p) (t -ℤ p.minimum_age)) (files_of payload)
              nothing_scanned)))
        (fun_ext λ f. reads_agree P f)
