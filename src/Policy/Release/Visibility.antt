-- ===== src/Policy/Release/Visibility.antt =====
-- What `ReleasePolicy.apply` returns.
use wheelguard.Base.{
  ℤ, eq_iff, ◌+◌, ◌≤ℤ◌, ◌-ℤ◌, ≤ℤ_trans, -ℤ_mono, ◌≡◌, refl, sym, ap, ◌∙◌, any, Bool, true, false,
  String, Option, some, List, length, select, str_eq, length-select-le, Has, ok, arith,
}
use wheelguard.Base.Filtered.{Filtered, select-Filtered, Filtered-sound, Filtered-complete}
use wheelguard.Json.{Json, Items, Fields, arr, obj, items, elements}
use wheelguard.Json.Dict.{get?, list_of, elements-items}
use wheelguard.Platform.{Platform, aware}
use wheelguard.Policy.{PolicyResult, finish, nothing_scanned, unless_raised}
use wheelguard.Policy.Payload.{
  get?-finish_files, get?-finish_other, get?-finish_versions, kept_versions,
}
use wheelguard.Policy.Scanning.{after, scan_lem}
use wheelguard.Policy.Vanishing.{Vanished, kept_versions-Filtered}
use wheelguard.Policy.Release.{ReleasePolicy, Overrides, read_overflows, step, apply}
use wheelguard.Policy.Release.Admission.{
  Admitted, unread, allowed, aged, undated, fell_back, version_of, action,
}
use wheelguard.Policy.Release.Decision.{admits, admits_iff, step_decides}

-- `payload.get("files", [])`, or no files when that is no list
abbrev pub files_of : Fields → List Json
files_of payload = list_of (get? "files" payload)

clash : {n m : String} {a : Option String} → a ≡ some n → a ≡ some m → str_eq n m ≡ false → ⊥
clash {n} {m} e e' h = cc (h, (eq_iff n m).1 (cc))

pub unless_raised-ok :
    {A : Type 0} (raised : Bool) (a : A) {b : A}
    → unless_raised raised a ≡ ok b
    → (raised ≡ false) × (a ≡ b)
unless_raised-ok true a h = cc h
unless_raised-ok false a h = (refl, cc h)

-- A blocked file has none of the grounds for being shown.
pub not-Admitted :
    {P : Platform} {p : ReleasePolicy} {overrides : Overrides} {fallback : Option ℤ} {now : ℤ}
    {f : Fields}
    → Admitted P p overrides fallback now (obj f)
    → ¬ (action P overrides f ≡ some "block")
not-Admitted (unread h) b = cc
not-Admitted (allowed a) b = clash a b refl
not-Admitted (aged t n u l) b = n b
not-Admitted (undated n u m) b = n b
not-Admitted (fell_back t age a u e l) b = clash a b refl

module _ (P : Platform) (p : ReleasePolicy) (payload : Fields) (now : ℤ) (overrides : Overrides)
    (fallback : Option ℤ) where
  abbrev ShownWith : Json → Type 0
  ShownWith = Admitted P p overrides fallback now

  abbrev test : Json → Bool
  test = admits P p overrides fallback now

  unfoldable pub outcome : PolicyResult
  outcome =
      finish P payload (files_of payload)
        (after test (version_of P) nothing_scanned (files_of payload))

  -- Some upload time is out of range.
  abbrev pub overflowing : Bool
  overflowing = any (read_overflows P overrides) (files_of payload)

  apply-unless :
      apply P p payload (aware now) overrides fallback ≡ unless_raised overflowing outcome
  unfolding apply outcome
  apply-unless =
      ap (λ s. unless_raised overflowing (finish P payload (files_of payload) s))
        (scan_lem test (version_of P) (step P p overrides fallback now)
          (step_decides P p overrides fallback now) (files_of payload))

  pub apply_lem :
      overflowing ≡ false → apply P p payload (aware now) overrides fallback ≡ ok outcome
  apply_lem fits = apply-unless ∙ rw fits refl

  pub files-outcome : files_of outcome.payload ≡ select test (files_of payload)
  unfolding outcome
  files-outcome = rw (get?-finish_files P _ payload (files_of payload)) (elements-items _)

  outcome-Filtered : Filtered ShownWith (files_of payload) (files_of outcome.payload)
  outcome-Filtered =
      rw files-outcome
        (select-Filtered ShownWith test (admits_iff P p overrides fallback now) (files_of payload))

  -- At an aware time, if the upload times of all files that no override blocks are within the years
  -- 1 to 9999 in UTC, the policy returns the files that it admits, unchanged and in their order, and no others; the counts
  -- are those of the files that it returns and of those that it leaves out.
  pub apply-files :
      any (read_overflows P overrides) (files_of payload) ≡ false
      → (r : PolicyResult) × (apply P p payload (aware now) overrides fallback ≡ ok r)
        × Filtered (Admitted P p overrides fallback now) (files_of payload) (files_of r.payload)
        × (r.visible_files ≡ length (files_of r.payload))
        × (r.visible_files + r.hidden_files ≡ length (files_of payload))
  apply-files fits = (
    outcome,
    apply_lem fits,
    outcome-Filtered,
    rw files-outcome (unfold outcome finish in refl),
    unfold outcome finish in omega (arith, length-select-le test (files_of payload)),
  )

  -- At an aware time, if the upload times of all files that no override blocks are within the years
  -- 1 to 9999 in UTC, a list of versions keeps exactly the values that did not vanish: a value vanishes when it
  -- names a version of which some file is left out and no file is shown.
  pub apply-versions :
      (values : Items)
      → any (read_overflows P overrides) (files_of payload) ≡ false
      → get? "versions" payload ≡ some (arr values)
      → (r : PolicyResult) × (kept : List Json) × (apply P p payload (aware now) overrides fallback
          ≡ ok r)
        × (get? "versions" r.payload ≡ some (arr (items kept)))
        × Filtered
            (λ v.
              ¬ Vanished P
                (Admitted P p overrides fallback now)
                (version_of P)
                (files_of payload)
                v)
            (elements values)
            kept
  apply-versions values fits h = (
    outcome,
    kept_versions P (after test (version_of P) nothing_scanned (files_of payload)) values,
    apply_lem fits,
    unfold outcome in get?-finish_versions P _ payload (files_of payload) values h,
    kept_versions-Filtered P ShownWith test (admits_iff P p overrides fallback now) (version_of P)
        (files_of payload) (elements values),
  )

  pub result-outcome :
      {r : PolicyResult} → apply P p payload (aware now) overrides fallback ≡ ok r → outcome ≡ r
  result-outcome h = (unless_raised-ok overflowing outcome (sym apply-unless ∙ h)).1

  -- No key but "files" and "versions" changes.
  pub apply-other_keys :
      (key : String) {r : PolicyResult}
      → str_eq "files" key ≡ false
      → str_eq "versions" key ≡ false
      → apply P p payload (aware now) overrides fallback ≡ ok r
      → get? key r.payload ≡ get? key payload
  apply-other_keys key f v h =
      rw (← result-outcome h)
        (unfold outcome in get?-finish_other P _ payload (files_of payload) key f v)

  pub result-Filtered :
      {r : PolicyResult}
      → apply P p payload (aware now) overrides fallback ≡ ok r
      → Filtered ShownWith (files_of payload) (files_of r.payload)
  result-Filtered h = rw (← result-outcome h) outcome-Filtered

module _ (P : Platform) (p : ReleasePolicy) (overrides : Overrides) (fallback : Option ℤ)
    (now later : ℤ) (le : now ≤ℤ later) where
  Admitted-later :
      (f : Json) → Admitted P p overrides fallback now f → Admitted P p overrides fallback later f
  Admitted-later f (unread h) = unread h
  Admitted-later _ (allowed h) = allowed h
  Admitted-later _ (aged t n u l) = aged t n u (
      ≤ℤ_trans t (now -ℤ p.minimum_age) (later -ℤ p.minimum_age) l
        (-ℤ_mono now later p.minimum_age le))
  Admitted-later _ (undated n u m) = undated n u m
  Admitted-later _ (fell_back t age a u b l) =
      fell_back t age a u b (≤ℤ_trans t (now -ℤ age) (later -ℤ age) l (-ℤ_mono now later age le))

  -- A file that a policy shows stays shown as time passes, under the same overrides.
  pub apply_monotone :
      (payload : Fields) (f : Json) {r r' : PolicyResult}
      → apply P p payload (aware now) overrides fallback ≡ ok r
      → apply P p payload (aware later) overrides fallback ≡ ok r'
      → Has f (files_of r.payload)
      → Has f (files_of r'.payload)
  apply_monotone payload f h h' m =
      let (a, k) = Filtered-sound (result-Filtered P p payload now overrides fallback h) m in
      Filtered-complete (result-Filtered P p payload later overrides fallback h')
        (Admitted-later f a) k

-- A release that an administrator blocks has no file in the result, whatever its age.
pub apply_blocked :
    (P : Platform) (p : ReleasePolicy) (payload : Fields) (now : ℤ) (overrides : Overrides)
    (fallback : Option ℤ) (f : Fields) {r : PolicyResult}
    → apply P p payload (aware now) overrides fallback ≡ ok r
    → action P overrides f ≡ some "block"
    → ¬ Has (obj f) (files_of r.payload)
apply_blocked P p payload now overrides fallback f h b m =
    not-Admitted (Filtered-sound (result-Filtered P p payload now overrides fallback h) m).0 b
