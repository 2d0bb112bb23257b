-- ===== src/Vulnerabilities/Collected.antt =====
-- The loop of the fallback collects exactly the fresh safe releases, and every aged one.
use wheelguard.Base.{
  ℤ, ◌≤ℤ◌, leb_ℤ, leb_ℤ→le, le→leb_ℤ, ◌≡◌, refl, sym, subst, inl, inr, false, Option, none, some,
  List, [], ◌∷◌, Has, Bool-cases,
}
use wheelguard.Json.{Json, Fields, null, obj}
use wheelguard.Json.Dict.{get}
use wheelguard.Platform.{Platform}
use wheelguard.Policy.{filename_version, upload_time}
use wheelguard.Vulnerabilities.{
  Advisories, advisories_of, is_nil, Safe, classify, consider, safe_versions,
}
use wheelguard.Vulnerabilities.Safety.{OldTime, Aged, Fresh, consider_fresh, consider_aged}

module _ (P : Platform) (advisories : Advisories) (cutoff fallback_cutoff : ℤ) where
  abbrev collected : List Json → Safe P
  collected = safe_versions P advisories cutoff fallback_cutoff

  there :
      {f : Json} {fs : List Json} {v : P.Version}
      → Fresh P advisories fs cutoff fallback_cutoff v
      → Fresh P advisories (f ∷ fs) cutoff fallback_cutoff v
  there r = record {
    safe = record {
      file = r.safe.file;
      present = inr r.safe.present;
      named = r.safe.named;
      clear = r.safe.clear;
    };
    time = r.time;
    uploaded = r.uploaded;
    young = r.young;
    settled = r.settled;
  }

  Aged-there :
      {f : Json} {fs : List Json} {v : P.Version}
      → Aged P advisories fs cutoff v
      → Aged P advisories (f ∷ fs) cutoff v
  Aged-there r = record {
    safe = record {
      file = r.safe.file;
      present = inr r.safe.present;
      named = r.safe.named;
      clear = r.safe.clear;
    };
    old = r.old;
  }

  pub Fresh-of-collected :
      (fs : List Json) (v : P.Version)
      → Has v (collected fs).fresh
      → Fresh P advisories fs cutoff fallback_cutoff v
  unfolding safe_versions
  Fresh-of-collected [] v m = absurd m
  Fresh-of-collected (obj f ∷ fs) v m =
      elim (consider_fresh P advisories cutoff fallback_cutoff
        (filename_version P (get "filename" f)) v (upload_time P (get "upload-time" f))
        (collected fs) m) [
          | inr k ↦ there (Fresh-of-collected fs v k)
          | inl (n, c, r) ↦ record {
            safe = record { file = f; present = inl refl; named = n; clear = c };
            time = r.0;
            uploaded = r.1;
            young = r.2;
            settled = r.3;
          }
        ]
  Fresh-of-collected (null ∷ fs) v m = there (Fresh-of-collected fs v m)
  Fresh-of-collected (_ ∷ fs) v m = there (Fresh-of-collected fs v m)

  -- A version that was collected stays collected.
  kept_fresh :
      (o : Option P.Version) (u : Option ℤ) (s : Safe P) (v : P.Version)
      → Has v s.fresh
      → Has v (consider P advisories cutoff fallback_cutoff o u s).fresh
  kept_fresh none u s v m = m
  kept_fresh (some w) u s v m =
      elim (Bool-cases (is_nil (advisories_of (P.version_text w) advisories))) [
        | inr h ↦ rw h m
        | inl h ↦ rw h (classified u)
      ]
    where
      classified : (u : Option ℤ) → Has v (classify P cutoff fallback_cutoff w u s).fresh
      classified none = m
      classified (some t) = elim (Bool-cases (leb_ℤ t cutoff)) [
        | inl h ↦ rw h m
        | inr h ↦ elim (Bool-cases (leb_ℤ t fallback_cutoff)) [
          | inl k ↦ rw (h, k) (inr m)
          | inr k ↦ rw (h, k) m
        ]
      ]

  kept_aged :
      (o : Option P.Version) (u : Option ℤ) (s : Safe P) (v : P.Version)
      → Has v s.aged
      → Has v (consider P advisories cutoff fallback_cutoff o u s).aged
  kept_aged none u s v m = m
  kept_aged (some w) u s v m =
      elim (Bool-cases (is_nil (advisories_of (P.version_text w) advisories))) [
        | inr h ↦ rw h m
        | inl h ↦ rw h (classified u)
      ]
    where
      classified : (u : Option ℤ) → Has v (classify P cutoff fallback_cutoff w u s).aged
      classified none = inr m
      classified (some t) = elim (Bool-cases (leb_ℤ t cutoff)) [
        | inl h ↦ rw h (inr m)
        | inr h ↦ elim (Bool-cases (leb_ℤ t fallback_cutoff)) [
          | inl k ↦ rw (h, k) m
          | inr k ↦ rw (h, k) m
        ]
      ]

  not_young : (t c : ℤ) → ¬ (t ≤ℤ c) → leb_ℤ t c ≡ false
  not_young t c n = elim (Bool-cases (leb_ℤ t c)) [
    | inl h ↦ absurd (n (leb_ℤ→le t c h))
    | inr h ↦ h
  ]

  new_fresh :
      (f : Fields) (s : Safe P) (v : P.Version) (t : ℤ)
      → filename_version P (get "filename" f) ≡ some v
      → advisories_of (P.version_text v) advisories ≡ []
      → upload_time P (get "upload-time" f) ≡ some t
      → ¬ (t ≤ℤ cutoff)
      → t ≤ℤ fallback_cutoff
      → Has v
          (consider P advisories cutoff fallback_cutoff
            (filename_version P (get "filename" f))
            (upload_time P (get "upload-time" f))
            s).fresh
  new_fresh f s v t n c u y l =
      rw (n, u, c, not_young t cutoff y, le→leb_ℤ t fallback_cutoff l) (inl refl)

  added_aged :
      (u : Option ℤ) (s : Safe P) (v : P.Version)
      → OldTime cutoff u
      → Has v (classify P cutoff fallback_cutoff v u s).aged
  added_aged none s v o = inl refl
  added_aged (some t) s v o = rw (le→leb_ℤ t cutoff o) (inl refl)

  new_aged :
      (f : Fields) (s : Safe P) (v : P.Version)
      → filename_version P (get "filename" f) ≡ some v
      → advisories_of (P.version_text v) advisories ≡ []
      → OldTime cutoff (upload_time P (get "upload-time" f))
      → Has v
          (consider P advisories cutoff fallback_cutoff
            (filename_version P (get "filename" f))
            (upload_time P (get "upload-time" f))
            s).aged
  new_aged f s v n c o = rw (n, c) (added_aged (upload_time P (get "upload-time" f)) s v o)

  carried_fresh :
      (g : Json) (fs : List Json) (v : P.Version)
      → Has v (collected fs).fresh
      → Has v (collected (g ∷ fs)).fresh
  unfolding safe_versions
  carried_fresh (obj g) fs v m =
      kept_fresh (filename_version P (get "filename" g)) (upload_time P (get "upload-time" g))
        (collected fs) v m
  carried_fresh null fs v m = m
  carried_fresh _ fs v m = m

  carried_aged :
      (g : Json) (fs : List Json) (v : P.Version)
      → Has v (collected fs).aged
      → Has v (collected (g ∷ fs)).aged
  unfolding safe_versions
  carried_aged (obj g) fs v m =
      kept_aged (filename_version P (get "filename" g)) (upload_time P (get "upload-time" g))
        (collected fs) v m
  carried_aged null fs v m = m
  carried_aged _ fs v m = m

  collected-of-Fresh :
      (fs : List Json) (f : Fields) (v : P.Version) (t : ℤ)
      → Has (obj f) fs
      → filename_version P (get "filename" f) ≡ some v
      → advisories_of (P.version_text v) advisories ≡ []
      → upload_time P (get "upload-time" f) ≡ some t
      → ¬ (t ≤ℤ cutoff)
      → t ≤ℤ fallback_cutoff
      → Has v (collected fs).fresh
  unfolding safe_versions
  collected-of-Fresh [] f v t m n c u y l = absurd m
  collected-of-Fresh (g ∷ fs) f v t (inl e) n c u y l =
      subst (λ h. Has v (collected (h ∷ fs)).fresh) (sym e)
        (new_fresh f (collected fs) v t n c u y l)
  collected-of-Fresh (g ∷ fs) f v t (inr m) n c u y l =
      carried_fresh g fs v (collected-of-Fresh fs f v t m n c u y l)

  collected-of-Aged :
      (fs : List Json) (f : Fields) (v : P.Version)
      → Has (obj f) fs
      → filename_version P (get "filename" f) ≡ some v
      → advisories_of (P.version_text v) advisories ≡ []
      → OldTime cutoff (upload_time P (get "upload-time" f))
      → Has v (collected fs).aged
  unfolding safe_versions
  collected-of-Aged [] f v m n c o = absurd m
  collected-of-Aged (g ∷ fs) f v (inl e) n c o =
      subst (λ h. Has v (collected (h ∷ fs)).aged) (sym e) (new_aged f (collected fs) v n c o)
  collected-of-Aged (g ∷ fs) f v (inr m) n c o =
      carried_aged g fs v (collected-of-Aged fs f v m n c o)

  pub Fresh-collected :
      (fs : List Json) (v : P.Version)
      → Fresh P advisories fs cutoff fallback_cutoff v
      → Has v (collected fs).fresh
  Fresh-collected fs v r =
      collected-of-Fresh fs r.safe.file v r.time r.safe.present r.safe.named r.safe.clear r.uploaded
        r.young r.settled

  pub Aged-collected :
      (fs : List Json) (v : P.Version) → Aged P advisories fs cutoff v → Has v (collected fs).aged
  Aged-collected fs v r =
      collected-of-Aged fs r.safe.file v r.safe.present r.safe.named r.safe.clear r.old

  pub Aged-of-collected :
      (fs : List Json) (v : P.Version) → Has v (collected fs).aged → Aged P advisories fs cutoff v
  unfolding safe_versions
  Aged-of-collected [] v m = absurd m
  Aged-of-collected (obj f ∷ fs) v m =
      elim (consider_aged P advisories cutoff fallback_cutoff
        (filename_version P (get "filename" f)) v (upload_time P (get "upload-time" f))
        (collected fs) m) [
          | inr k ↦ Aged-there (Aged-of-collected fs v k)
          | inl (n, c, o) ↦ record {
            safe = record { file = f; present = inl refl; named = n; clear = c };
            old = o;
          }
        ]
  Aged-of-collected (null ∷ fs) v m = Aged-there (Aged-of-collected fs v m)
  Aged-of-collected (_ ∷ fs) v m = Aged-there (Aged-of-collected fs v m)
