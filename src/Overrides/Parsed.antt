-- ===== src/Overrides/Parsed.antt =====
-- What an override request that is accepted says, and what the release policy makes of it.
use wheelguard.Base.{
  ℕ, ℤ, ◌≤◌, leb_ℤ, ◌≡◌, sym, ap, subst, ◌∙◌, ◌⊎◌, inl, inr, false, ◌||◌, String, Option, none,
  some, Bool-cases, Option-cases, or_true, is_empty, ltb, str_eq, eq_iff, text_length, ok, returned,
  arith,
}
use wheelguard.Json.{Json, null, str, arr, obj}
use wheelguard.Json.Dict.{get}
use wheelguard.Overrides.{
  OverrideError, OverrideRequest, no_project, long_project, no_version, long_version, no_reason,
  long_reason, required, valid_action, future_instant, parse_expiry, valid_project, valid_version,
  parse_override_request,
}
use wheelguard.Base.{strip}
use wheelguard.Platform.{Platform, Moment, naive, aware}
use wheelguard.Policy.{is_out_of_range}

required-le :
    (missing long : OverrideError) (limit : ℕ) (raw : Json) {s : String}
    → required missing long limit raw ≡ ok s
    → (is_empty s ≡ false) × (text_length s ≤ limit)
unfolding required
required-le missing long limit (str raw) h = elim (Bool-cases (is_empty (strip raw))) [
  | inl e ↦ cc (rw e at h)
  | inr e ↦ elim (Bool-cases (ltb limit (text_length (strip raw)))) [
    | inl l ↦ cc (rw (e, l) at h)
    | inr l ↦
        subst (λ s. (is_empty s ≡ false) × (text_length s ≤ limit)) (cc (rw (e, l) at h))
          (e, ground arith)
  ]
]
required-le missing long limit null h = cc
required-le missing long limit _ h = cc

action-cases : (raw : Json) {a : String} → valid_action raw ≡ ok a → (a ≡ "allow") ⊎ (a ≡ "block")
unfolding valid_action
action-cases (str s) {a} h = elim (Bool-cases (str_eq s "allow" || str_eq s "block")) [
  | inr e ↦ cc (rw e at h)
  | inl e ↦
      let q : s ≡ a = cc (rw e at h) in
      elim (or_true (str_eq s "allow") (str_eq s "block") e) [
        | inl l ↦ inl (sym q ∙ (eq_iff s "allow").0 l)
        | inr r ↦ inr (sym q ∙ (eq_iff s "block").0 r)
      ]
]
action-cases null h = cc
action-cases _ h = cc

module _ (P : Platform) where
  -- What an accepted request promises to the policy that reads it.
  pub record IsUsable (now : ℤ) (o : OverrideRequest) : Type 0 where
    pub named : (name : String) × (P.canonicalize_name name ≡ some o.project)
    pub released : (v : P.Version) × (o.version ≡ P.version_text v)
    pub acts : (o.action ≡ "allow") ⊎ (o.action ≡ "block")
    pub justified : (is_empty o.reason ≡ false) × (text_length o.reason ≤ 500)
    pub lasts : (t : ℤ) → o.expires_at ≡ some t → leb_ℤ t now ≡ false

  project-named :
      (text : String) {p : String}
      → valid_project P text ≡ ok p
      → (name : String) × (P.canonicalize_name name ≡ some p)
  unfolding valid_project
  project-named text {p} h = elim (Option-cases (P.canonicalize_name text)) [
    | inl e ↦ cc (rw (valid_project, e) at h)
    | inr (n, e) ↦ (text, (e ∙ ap some (let q : n ≡ p = cc (rw (valid_project, e) at h) in q)))
  ]

  version-released :
      (text : String) {s : String}
      → valid_version P text ≡ ok s
      → (v : P.Version) × (s ≡ P.version_text v)
  unfolding valid_version
  version-released text {s} h = elim (Option-cases (P.parse_version text)) [
    | inl e ↦ cc (rw (valid_version, e) at h)
    | inr (v, e) ↦ (v, (let q : P.version_text v ≡ s = cc (rw (valid_version, e) at h) in sym q))
  ]

  future-lasts :
      (now : ℤ) (m : Option Moment) {x : Option ℤ}
      → future_instant now m ≡ ok x
      → (t : ℤ) → x ≡ some t
      → leb_ℤ t now ≡ false
  future-lasts now none h t e = cc
  future-lasts now (some (naive u)) h t e = cc
  future-lasts now (some (aware u)) h t e = elim (Bool-cases (is_out_of_range (some (aware u)))) [
    | inl o ↦ cc (rw o at h)
    | inr o ↦ elim (Bool-cases (leb_ℤ u now)) [
      | inl l ↦ cc (rw (o, l) at h)
      | inr l ↦ let q : u ≡ t = cc (rw (o, l) at h, e) in subst (λ s. leb_ℤ s now ≡ false) q l
    ]
  ]

  expiry-lasts :
      (now : ℤ) (raw : Json) {x : Option ℤ}
      → parse_expiry P now raw ≡ ok x
      → (t : ℤ) → x ≡ some t
      → leb_ℤ t now ≡ false
  unfolding parse_expiry
  expiry-lasts now null h t e = cc
  expiry-lasts now (str s) h t e = elim (Bool-cases (is_empty s)) [
    | inl l ↦ cc (rw l at h, e)
    | inr l ↦ future-lasts now _ (rw l at h) t e
  ]
  expiry-lasts now (arr _) h t e = cc
  expiry-lasts now _ h t e = cc

  -- A request that is accepted names a normalized project and the text of a version, allows or
  -- blocks, gives a reason of 1 to 500 characters, and does not expire before it begins.
  pub parse_override_request-IsUsable :
      (now : ℤ) (raw : Json) {o : OverrideRequest}
      → parse_override_request P now raw ≡ ok o
      → IsUsable now o
  unfolding parse_override_request
  parse_override_request-IsUsable now (obj raw) {o} h =
      let (p0, e0, h0) = returned (required no_project long_project 200 (get "project" raw)) _ h in
      let (p, e1, h1) = returned (valid_project P p0) _ h0 in
      let (v0, e2, h2) = returned (required no_version long_version 200 (get "version" raw)) _ h1 in
      let (v, e3, h3) = returned (valid_version P v0) _ h2 in
      let (a, e4, h4) = returned (valid_action (get "action" raw)) _ h3 in
      let (r, e5, h5) = returned (required no_reason long_reason 500 (get "reason" raw)) _ h4 in
      let (x, e6, h6) = returned (parse_expiry P now (get "expires_at" raw)) _ h5 in
      let q : record { project = p; version = v; action = a; reason = r; expires_at = x } ≡ o =
        cc h6 in
      subst (IsUsable now) q (record {
        named = project-named p0 e1;
        released = version-released v0 e3;
        acts = action-cases (get "action" raw) e4;
        justified = required-le no_reason long_reason 500 (get "reason" raw) e5;
        lasts = expiry-lasts now (get "expires_at" raw) e6;
      })
  parse_override_request-IsUsable now null h = cc
  parse_override_request-IsUsable now _ h = cc
