-- ===== src/Vulnerabilities/Fallback.antt =====
-- What the automatic fallback allows: the newest fresh safe release, when no safe release is old
-- enough.
use wheelguard.Base.{
  ℤ, ◌-ℤ◌, ◌≡◌, refl, Bool, true, false, not, String, List, [], ◌∷◌, any, Has, inl, inr, ◌⊎◌, ok,
  Bool-cases,
}
use wheelguard.Base.Sort.{max_from, max_from_mem, max_from_greatest}
use wheelguard.Json.{Json, Fields}
use wheelguard.Platform.{Platform, aware, IsLawful}
use wheelguard.Policy.Release.{Overrides}
use wheelguard.Policy.Release.Visibility.{files_of, unless_raised-ok}
use wheelguard.Vulnerabilities.{
  Advisories, is_nil, Safe, safe_overflows, safe_versions, choose, automatic_fixed_version_allows,
}
use wheelguard.Vulnerabilities.Safety.{Aged, Fresh}
use wheelguard.Vulnerabilities.Collected.{
  Fresh-of-collected, Fresh-collected, Aged-collected, Aged-of-collected,
}

abbrev pub has_advisories : Advisories → Bool
has_advisories advisories = any (λ entry. not (is_nil entry.1)) advisories

module _ (P : Platform) (law : IsLawful P) (advisories : Advisories) (cutoff fallback_cutoff : ℤ)
    (files : List Json) where
  -- `newest` is a fresh safe release, no fresh safe release is newer, and no safe one is aged.
  pub record IsNewest (newest : P.Version) : Type 0 where
    pub fresh : Fresh P advisories files cutoff fallback_cutoff newest
    pub greatest :
        (w : P.Version)
        → Fresh P advisories files cutoff fallback_cutoff w
        → P.version_lt newest w ≡ false
    pub none_aged : (w : P.Version) → ¬ Aged P advisories files cutoff w

  abbrev found : Safe P
  found = safe_versions P advisories cutoff fallback_cutoff files

  IsNewest-choose :
      (v : P.Version) (vs : List P.Version)
      → found.aged ≡ []
      → found.fresh ≡ v ∷ vs
      → IsNewest (max_from P.version_lt v vs)
  IsNewest-choose v vs a e = record {
    fresh =
        Fresh-of-collected P advisories cutoff fallback_cutoff files _
          (rw e (max_from_mem P.version_lt v vs));
    greatest = λ w r.
        max_from_greatest P.version_lt law.lt_irrefl law.lt_trans v w vs
          (rw e at (Fresh-collected P advisories cutoff fallback_cutoff files w r));
    none_aged = λ w r. rw a at (Aged-collected P advisories cutoff fallback_cutoff files w r);
  }

  -- Nothing is chosen: a safe release is aged, or none is fresh.
  abbrev Declines : Safe P → Type 0
  Declines s = (choose P s ≡ []) × (((w : P.Version) × Has w s.aged) ⊎ (s.fresh ≡ []))

  abbrev Chooses : Safe P → Type 0
  Chooses s =
      (v : P.Version) × (vs : List P.Version) × (s.aged ≡ [])
      × (s.fresh ≡ v ∷ vs)
      × (choose P s ≡ (P.version_text (max_from P.version_lt v vs), "fallback") ∷ [])

  choose_cases : (s : Safe P) → Declines s ⊎ Chooses s
  unfolding choose
  choose_cases s = go s.aged s.fresh refl refl
    where
      go : (a f : List P.Version) → s.aged ≡ a → s.fresh ≡ f → Declines s ⊎ Chooses s
      go [] [] a f = inl (rw (a, f, choose), inr f)
      go [] (v ∷ vs) a f = inr (v, vs, a, f, rw (a, f, choose))
      go (w ∷ ws) fs a f = inl (rw (a, choose), inl (w, rw a (inl refl)))

module _ (P : Platform) (law : IsLawful P) (payload : Fields) (advisories : Advisories)
    (now minimum_age fallback_age : ℤ) where
  abbrev Newest : P.Version → Type 0
  Newest = IsNewest P law advisories (now -ℤ minimum_age) (now -ℤ fallback_age) (files_of payload)

  abbrev safe : Safe P
  safe = safe_versions P advisories (now -ℤ minimum_age) (now -ℤ fallback_age) (files_of payload)

  abbrev overflowing : Bool
  overflowing = any (safe_overflows P advisories) (files_of payload)

  -- Whatever the fallback allows is one entry: the newest release without advisories that is past
  -- the emergency age and short of the minimum age, while no release without advisories is old
  -- enough.
  pub allows-IsNewest :
      (key action : String) (rest : Overrides)
      → automatic_fixed_version_allows P payload advisories (aware now) minimum_age fallback_age
        ≡ ok ((key, action) ∷ rest)
      → (v : P.Version) × (key ≡ P.version_text v)
        × (action ≡ "fallback")
        × (rest ≡ [])
        × IsNewest P law advisories (now -ℤ minimum_age) (now -ℤ fallback_age) (files_of payload) v
  unfolding automatic_fixed_version_allows
  allows-IsNewest key action rest h = elim (Bool-cases (has_advisories advisories)) [
    | inr n ↦ cc (rw (n, automatic_fixed_version_allows) at h)
    | inl y ↦
        elim (choose_cases P law advisories (now -ℤ minimum_age) (now -ℤ fallback_age)
          (files_of payload) safe) [
            | inl d ↦ cc (
              (unless_raised-ok overflowing (choose P safe)
                  (rw (y, automatic_fixed_version_allows) at h)).1,
              d.0,
            )
            | inr (v, vs, a, f, e) ↦
                let q : choose P safe ≡ ((key, action) ∷ rest) =
                  (unless_raised-ok overflowing (choose P safe)
                    (rw (y, automatic_fixed_version_allows) at h)).1 in
                (
                  max_from P.version_lt v vs,
                  cc (q, e),
                  cc (q, e),
                  cc (q, e),
                  IsNewest-choose P law advisories (now -ℤ minimum_age) (now -ℤ fallback_age)
                      (files_of payload) v vs a f,
                )
          ]
  ]

  -- With an advisory on record, a fresh release without advisories and none that is old enough, and
  -- if the upload times of the files without advisories are within the years 1 to 9999 in UTC, the
  -- fallback does allow the newest.
  pub IsNewest-allows :
      (w : P.Version)
      → has_advisories advisories ≡ true
      → any (safe_overflows P advisories) (files_of payload) ≡ false
      → Fresh P advisories (files_of payload) (now -ℤ minimum_age) (now -ℤ fallback_age) w
      → ((v : P.Version) → ¬ Aged P advisories (files_of payload) (now -ℤ minimum_age) v)
      → (v : P.Version) × (automatic_fixed_version_allows P payload advisories
            (aware now)
            minimum_age
            fallback_age
          ≡ ok ((P.version_text v, "fallback") ∷ []))
        × IsNewest P law advisories (now -ℤ minimum_age) (now -ℤ fallback_age) (files_of payload) v
  unfolding automatic_fixed_version_allows
  IsNewest-allows w y fits r n =
      elim (choose_cases P law advisories (now -ℤ minimum_age) (now -ℤ fallback_age)
        (files_of payload) safe) [
          | inl (e, inl (v, m)) ↦ absurd (
              n v (
                Aged-of-collected P advisories (now -ℤ minimum_age) (now -ℤ fallback_age)
                  (files_of payload) v m))
          | inl (e, inr z) ↦ absurd (
              rw z at (
                Fresh-collected P advisories (now -ℤ minimum_age) (now -ℤ fallback_age)
                  (files_of payload) w r))
          | inr (v, vs, a, f, e) ↦ (
            max_from P.version_lt v vs,
            rw (y, fits, e, automatic_fixed_version_allows),
            IsNewest-choose P law advisories (now -ℤ minimum_age) (now -ℤ fallback_age)
                (files_of payload) v vs a f,
          )
        ]
