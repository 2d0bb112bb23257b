-- ===== src/Policy/Release/Decision.antt =====
-- The tests of `ReleasePolicy.apply` decide `Admitted`, and its loop takes one decision for a file.
use wheelguard.Base.{
  ℤ, ◌-ℤ◌, leb_ℤ→le, le→leb_ℤ, ◌≡◌, refl, ap, ◌↔◌, inl, inr, Bool, true, false, not, ◌&&◌, ◌||◌,
  String, Option, none, some, arith, eq_iff, Bool-cases, leb_ℤ, ◌≤ℤ◌, and_true, or_true, not-true,
}
use wheelguard.Json.{Json, Fields, null, obj}
use wheelguard.Platform.{Platform}
use wheelguard.Policy.{Scan, action_is, old_enough}
use wheelguard.Policy.Scanning.{decide}
use wheelguard.Policy.Release.{ReleasePolicy, Overrides, fallback_admits, step}
use wheelguard.Policy.Release.Admission.{
  Admitted, unread, allowed, aged, undated, fell_back, version_of, action, uploaded,
}

pub action_is_iff : (n : String) (a : Option String) → (action_is n a ≡ true) ↔ (a ≡ some n)
action_is_iff n none = (λ h. cc, λ h. cc)
action_is_iff n (some a) = (λ h. ap some ((eq_iff a n).0 h), λ h. (eq_iff a n).1 (cc))

fallback_true :
    (a : Option String) (fallback : Option ℤ) (now : ℤ) (o : Option ℤ)
    → fallback_admits a fallback now o ≡ true
    → (t age : ℤ) × (a ≡ some "fallback") × (o ≡ some t) × (fallback ≡ some age) × (t ≤ℤ now -ℤ age)
fallback_true a (some age) now (some t) h =
    let (h₁, h₂) = and_true (action_is "fallback" a) (leb_ℤ t (now -ℤ age)) h in
    (t, age, (action_is_iff "fallback" a).0 h₁, refl, refl, leb_ℤ→le t (now -ℤ age) h₂)
fallback_true a none now o h = cc
fallback_true a (some age) now none h = cc

module _ (P : Platform) (p : ReleasePolicy) (overrides : Overrides) (fallback : Option ℤ)
    (now : ℤ) where
  abbrev old : Fields → Bool
  old f = old_enough p.allow_missing_upload_time (now -ℤ p.minimum_age) (uploaded P overrides f)

  abbrev back : Fields → Bool
  back f = fallback_admits (action P overrides f) fallback now (uploaded P overrides f)

  unfoldable pub admits : Json → Bool
  admits (obj f) =
      not (action_is "block" (action P overrides f))
      && (action_is "allow" (action P overrides f) || (old f || back f))
  admits _ = true

  pub step_decides :
      (f : Json) (s : Scan P.Version)
      → step P p overrides fallback now f s ≡ decide admits (version_of P) f s
  unfolding step admits
  step_decides (obj f) s = ground arith
  step_decides _ s = refl

  block_or_not :
      (f : Fields)
      → action_is "block" (action P overrides f) ≡ false
      → ¬ (action P overrides f ≡ some "block")
  block_or_not f h e = cc (h, (action_is_iff "block" (action P overrides f)).1 e)

  by_age :
      (f : Fields) (o : Option ℤ)
      → uploaded P overrides f ≡ o
      → action_is "block" (action P overrides f) ≡ false
      → old_enough p.allow_missing_upload_time (now -ℤ p.minimum_age) o ≡ true
      → Admitted P p overrides fallback now (obj f)
  by_age f none e nb h = undated (block_or_not f nb) e h
  by_age f (some t) e nb h = aged t (block_or_not f nb) e (leb_ℤ→le t (now -ℤ p.minimum_age) h)

  by_fallback : (f : Fields) → back f ≡ true → Admitted P p overrides fallback now (obj f)
  by_fallback f h =
      let (t, age, a, u, b, l) =
        fallback_true (action P overrides f) fallback now (uploaded P overrides f) h in
      fell_back t age a u b l

  admits_sound : (f : Json) → admits f ≡ true → Admitted P p overrides fallback now f
  unfolding admits
  admits_sound (obj f) h =
      let (nb, h₁) = and_true (not (action_is "block" (action P overrides f))) _ h in
      let nb' = not-true (action_is "block" (action P overrides f)) nb in
      elim (or_true (action_is "allow" (action P overrides f)) (old f || back f) h₁) [
        | inl a ↦ allowed ((action_is_iff "allow" (action P overrides f)).0 a)
        | inr r ↦ elim (or_true (old f) (back f) r) [
          | inl o ↦ by_age f (uploaded P overrides f) refl nb' o
          | inr b ↦ by_fallback f b
        ]
      ]
  admits_sound null h = unread refl
  admits_sound _ h = unread refl

  not_block :
      (f : Fields)
      → ¬ (action P overrides f ≡ some "block")
      → action_is "block" (action P overrides f) ≡ false
  not_block f n = elim (Bool-cases (action_is "block" (action P overrides f))) [
    | inl h ↦ absurd (n ((action_is_iff "block" (action P overrides f)).0 h))
    | inr h ↦ h
  ]

  shown_by :
      (f : Fields)
      → action_is "block" (action P overrides f) ≡ false
      → old f ≡ true
      → admits (obj f) ≡ true
  unfolding admits
  shown_by f n o = rw (n, o) (ground arith)

  admits_complete : (f : Json) → Admitted P p overrides fallback now f → admits f ≡ true
  unfolding admits
  admits_complete (obj f) (unread h) = cc
  admits_complete (obj f) (allowed a) = rw (a, admits)
  admits_complete (obj f) (aged t nb u l) =
      shown_by f (not_block f nb) (rw u (le→leb_ℤ t (now -ℤ p.minimum_age) l))
  admits_complete (obj f) (undated nb u m) = shown_by f (not_block f nb) (rw u m)
  admits_complete (obj f) (fell_back t age a u b l) =
      rw (a, u, b, admits, le→leb_ℤ t (now -ℤ age) l) (ground arith)
  admits_complete null h = refl
  admits_complete _ h = refl

  pub admits_iff : (f : Json) → (admits f ≡ true) ↔ Admitted P p overrides fallback now f
  admits_iff f = (admits_sound f, admits_complete f)
