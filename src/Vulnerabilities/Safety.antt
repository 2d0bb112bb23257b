-- ===== src/Vulnerabilities/Safety.antt =====
-- The safe releases that the fallback looks at: what its loop collects, and nothing else.
use wheelguard.Base.{
  ℤ, ◌≤ℤ◌, leb_ℤ, leb_ℤ→le, le→leb_ℤ, ◌≡◌, refl, ap, ◌⊎◌, inl, inr, true, false, Option, none, some,
  List, [], ◌∷◌, Has, Bool-cases, String,
}
use wheelguard.Json.{Json, Fields, obj}
use wheelguard.Json.Dict.{get}
use wheelguard.Platform.{Platform}
use wheelguard.Policy.{filename_version, upload_time}
use wheelguard.Vulnerabilities.{Advisories, advisories_of, is_nil, Safe, classify, consider}

-- No usable time, or a time that the cutoff has reached.
abbrev pub OldTime : ℤ → Option ℤ → Type 0
OldTime cutoff none = Unit
OldTime cutoff (some t) = t ≤ℤ cutoff

module _ (P : Platform) (advisories : Advisories) (files : List Json) where
  -- A file of a release without advisories.
  pub record SafeFile (v : P.Version) : Type 0 where
    pub file : Fields
    pub present : Has (obj file) files
    pub named : filename_version P (get "filename" file) ≡ some v
    pub clear : advisories_of (P.version_text v) advisories ≡ []

  pub record Aged (cutoff : ℤ) (v : P.Version) : Type 0 where
    pub safe : SafeFile v
    pub old : OldTime cutoff (upload_time P (get "upload-time" safe.file))

  pub record Fresh (cutoff fallback_cutoff : ℤ) (v : P.Version) : Type 0 where
    pub safe : SafeFile v
    pub time : ℤ
    pub uploaded : upload_time P (get "upload-time" safe.file) ≡ some time
    pub young : ¬ (time ≤ℤ cutoff)
    pub settled : time ≤ℤ fallback_cutoff

module _ (P : Platform) (advisories : Advisories) (cutoff fallback_cutoff : ℤ) where
  -- The two ways in which one file adds its version.
  abbrev pub AddsAged : Option P.Version → Option ℤ → P.Version → Type 0
  AddsAged o u v =
      (o ≡ some v) × (advisories_of (P.version_text v) advisories ≡ []) × OldTime cutoff u

  abbrev pub AddsFresh : Option P.Version → Option ℤ → P.Version → Type 0
  AddsFresh o u v =
      (o ≡ some v)
      × (advisories_of (P.version_text v) advisories ≡ [])
      × ((t : ℤ) × (u ≡ some t) × (¬ (t ≤ℤ cutoff)) × (t ≤ℤ fallback_cutoff))

  is_nil_eq : (xs : List String) → is_nil xs ≡ true → xs ≡ []
  is_nil_eq [] h = refl
  is_nil_eq (x ∷ xs) h = cc

  classify_fresh :
      (w v : P.Version) (u : Option ℤ) (s : Safe P)
      → Has v (classify P cutoff fallback_cutoff w u s).fresh
      → ((w ≡ v) × ((t : ℤ) × (u ≡ some t) × (¬ (t ≤ℤ cutoff)) × (t ≤ℤ fallback_cutoff)))
        ⊎ Has v s.fresh
  classify_fresh w v none s m = inr m
  classify_fresh w v (some t) s m = elim (Bool-cases (leb_ℤ t cutoff)) [
    | inl h ↦ inr (rw h at m)
    | inr h ↦ elim (Bool-cases (leb_ℤ t fallback_cutoff)) [
      | inr k ↦ inr (rw (h, k) at m)
      | inl k ↦ elim (added h k) [
        | inl e ↦ inl (e, (t, refl, λ l. cc (h, le→leb_ℤ t cutoff l), leb_ℤ→le t fallback_cutoff k))
        | inr n ↦ inr n
      ]
    ]
  ]
    where
      added : leb_ℤ t cutoff ≡ false → leb_ℤ t fallback_cutoff ≡ true → (w ≡ v) ⊎ Has v s.fresh
      added h k = rw (h, k) at m

  pub consider_fresh :
      (o : Option P.Version) (v : P.Version) (u : Option ℤ) (s : Safe P)
      → Has v (consider P advisories cutoff fallback_cutoff o u s).fresh
      → AddsFresh o u v ⊎ Has v s.fresh
  consider_fresh none v u s m = inr m
  consider_fresh (some w) v u s m =
      elim (Bool-cases (is_nil (advisories_of (P.version_text w) advisories))) [
        | inr h ↦ inr (rw h at m)
        | inl h ↦ elim (classify_fresh w v u s (rw h at m)) [
          | inr n ↦ inr n
          | inl (e, r) ↦ inl (ap some e, rw (← e) (is_nil_eq _ h), r)
        ]
      ]

  classify_aged :
      (w v : P.Version) (u : Option ℤ) (s : Safe P)
      → Has v (classify P cutoff fallback_cutoff w u s).aged
      → ((w ≡ v) × OldTime cutoff u) ⊎ Has v s.aged
  classify_aged w v none s (inl e) = inl (e, tt)
  classify_aged w v none s (inr m) = inr m
  classify_aged w v (some t) s m = elim (Bool-cases (leb_ℤ t cutoff)) [
    | inl h ↦ elim (added h) [ inl e ↦ inl (e, leb_ℤ→le t cutoff h) | inr n ↦ inr n ]
    | inr h ↦ elim (Bool-cases (leb_ℤ t fallback_cutoff)) [
      | inr k ↦ inr (rw (h, k) at m)
      | inl k ↦ inr (rw (h, k) at m)
    ]
  ]
    where
      added : leb_ℤ t cutoff ≡ true → (w ≡ v) ⊎ Has v s.aged
      added h = rw h at m

  pub consider_aged :
      (o : Option P.Version) (v : P.Version) (u : Option ℤ) (s : Safe P)
      → Has v (consider P advisories cutoff fallback_cutoff o u s).aged
      → AddsAged o u v ⊎ Has v s.aged
  consider_aged none v u s m = inr m
  consider_aged (some w) v u s m =
      elim (Bool-cases (is_nil (advisories_of (P.version_text w) advisories))) [
        | inr h ↦ inr (rw h at m)
        | inl h ↦ elim (classify_aged w v u s (rw h at m)) [
          | inr n ↦ inr n
          | inl (e, r) ↦ inl (ap some e, rw (← e) (is_nil_eq _ h), r)
        ]
      ]
