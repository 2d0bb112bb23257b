-- ===== src/Policy/Vanishing.antt =====
-- When a version leaves the list of versions: the description, and that the code decides it.
use wheelguard.Base.{
  ◌≡◌, refl, ◌↔◌, inl, inr, Bool, true, false, not, String, Option, some, List, [], ◌∷◌, select,
  any, Has, arith, Bool-cases, Option-cases, and_true, or_true, not-true,
}
use wheelguard.Base.Filtered.{Filtered, select-Filtered, Filtered-sound, Filtered-complete}
use wheelguard.Json.{Json, null, str}
use wheelguard.Platform.{Platform}
use wheelguard.Policy.{Scan, only_hidden, contains}
use wheelguard.Policy.Scanning.{versions_of, after}
use wheelguard.Policy.{nothing_scanned}

-- A file of the list whose version passes a test.
pub record Carries {V : Type 0} (version : Json → Option V) (test : V → Bool) (files : List Json)
    : Type 0 where
  pub file : Json
  pub present : Has file files
  pub name : V
  pub named : version file ≡ some name
  pub passes : test name ≡ true

module _ {V : Type 0} (version : Json → Option V) (test : V → Bool) where
  later : {f : Json} {fs : List Json} → Carries version test fs → Carries version test (f ∷ fs)
  later c = record {
    file = c.file;
    present = inr c.present;
    name = c.name;
    named = c.named;
    passes = c.passes;
  }

  pub Carries-of-any :
      (fs : List Json) → any test (versions_of version fs) ≡ true → Carries version test fs
  Carries-of-any [] h = cc
  Carries-of-any (f ∷ fs) h = elim (Option-cases (version f)) [
    | inl n ↦ later (Carries-of-any fs (rw n at h))
    | inr (v, e) ↦ elim (or_true (test v) (any test (versions_of version fs)) (rw e at h)) [
      | inl t ↦ record { file = f; present = inl refl; name = v; named = e; passes = t }
      | inr r ↦ later (Carries-of-any fs r)
    ]
  ]

  any_tail :
      (f : Json) (fs : List Json)
      → any test (versions_of version fs) ≡ true
      → any test (versions_of version (f ∷ fs)) ≡ true
  any_tail f fs h = elim (Option-cases (version f)) [
    | inl n ↦ rw n h
    | inr (v, e) ↦ rw (e, h) (ground arith)
  ]

  pub any-of-Has :
      (fs : List Json) {f : Json} {v : V}
      → Has f fs
      → version f ≡ some v
      → test v ≡ true
      → any test (versions_of version fs) ≡ true
  any-of-Has [] m e t = absurd m
  any-of-Has (g ∷ fs) {f} {v} (inl p) e t = rw (p, e, t)
  any-of-Has (g ∷ fs) (inr m) e t = any_tail g fs (any-of-Has fs m e t)

-- What `select` keeps, by membership.
pub Has-select :
    {A : Type 0} (q : A → Bool) (xs : List A) {a : A}
    → Has a (select q xs) ↔ ((q a ≡ true) × Has a xs)
Has-select q xs {a} = (
  Filtered-sound (select-Filtered (λ x. q x ≡ true) q (λ x. (λ h. h, λ h. h)) xs),
  λ h. Filtered-complete (select-Filtered (λ x. q x ≡ true) q (λ x. (λ k. k, λ k. k)) xs) h.0 h.1,
)

module _ (P : Platform) (Q : Json → Type 0) (version : Json → Option P.Version)
    (files : List Json) where
  -- `raw` names a version with a hidden file and no visible one.
  pub record Vanished (value : Json) : Type 0 where
    pub raw : String
    pub text : value ≡ str raw
    pub parsed : P.Version
    pub parses : P.parse_version raw ≡ some parsed
    pub hidden : Carries version (P.version_eq parsed) files
    pub not_shown : ¬ Q hidden.file
    pub none_shown :
        (f : Json) (w : P.Version)
        → Has f files
        → Q f
        → version f ≡ some w
        → ¬ (P.version_eq parsed w ≡ true)

module _ (P : Platform) (Q : Json → Type 0) (admits : Json → Bool)
    (iff : (f : Json) → (admits f ≡ true) ↔ Q f) (version : Json → Option P.Version)
    (files : List Json) where
  abbrev pub scanned : Scan P.Version
  scanned = after admits version nothing_scanned files

  hidden_or_not : (f : Json) → not (admits f) ≡ true → ¬ Q f
  hidden_or_not f h q = cc (not-true (admits f) h, (iff f).1 q)

  Vanished-of_parts :
      (raw : String) (u : P.Version)
      → P.parse_version raw ≡ some u
      → contains P u scanned.hidden_versions ≡ true
      → contains P u scanned.visible_versions ≡ false
      → Vanished P Q version files (str raw)
  Vanished-of_parts raw u e h n =
      let c = Carries-of-any version (P.version_eq u) (select (λ f. not (admits f)) files) h in
      let (a, m) = (Has-select (λ f. not (admits f)) files).0 c.present in
      record {
        raw = raw;
        text = refl;
        parsed = u;
        parses = e;
        hidden = record {
          file = c.file;
          present = m;
          name = c.name;
          named = c.named;
          passes = c.passes;
        };
        not_shown = hidden_or_not c.file a;
        none_shown = λ f w k q v t. cc (
          n,
          any-of-Has version (P.version_eq u) (select admits files)
              ((Has-select admits files).1 ((iff f).1 q, k)) v t,
        );
      }

  only_hidden_sound :
      (value : Json)
      → only_hidden P value scanned.hidden_versions scanned.visible_versions ≡ true
      → Vanished P Q version files value
  unfolding only_hidden
  only_hidden_sound (str raw) h = elim (Option-cases (P.parse_version raw)) [
    | inl n ↦ cc (rw (n, only_hidden) at h)
    | inr (u, e) ↦
        let (a, b) = and_true _ _ (rw (e, only_hidden) at h) in
        Vanished-of_parts raw u e a (not-true _ b)
  ]
  only_hidden_sound null h = cc
  only_hidden_sound _ h = cc

  not_contained :
      (value : Json) (v : Vanished P Q version files value)
      → contains P v.parsed scanned.visible_versions ≡ false
  not_contained value v = elim (Bool-cases (contains P v.parsed scanned.visible_versions)) [
    | inr h ↦ h
    | inl h ↦
        let c = Carries-of-any version (P.version_eq v.parsed) (select admits files) h in
        let (a, m) = (Has-select admits files).0 c.present in
        absurd (v.none_shown c.file c.name m ((iff c.file).0 a) c.named c.passes)
  ]

  hides : (f : Json) → ¬ Q f → not (admits f) ≡ true
  hides f n = elim (Bool-cases (admits f)) [ inl h ↦ absurd (n ((iff f).0 h)) | inr h ↦ rw h ]

  contained :
      (value : Json) (v : Vanished P Q version files value)
      → contains P v.parsed scanned.hidden_versions ≡ true
  contained value v =
      any-of-Has version (P.version_eq v.parsed) (select (λ f. not (admits f)) files)
        ((Has-select (λ f. not (admits f)) files).1
          (hides v.hidden.file v.not_shown, v.hidden.present))
        v.hidden.named v.hidden.passes

  only_hidden_complete :
      (value : Json)
      → Vanished P Q version files value
      → only_hidden P value scanned.hidden_versions scanned.visible_versions ≡ true
  unfolding only_hidden
  only_hidden_complete value v =
      rw (v.text, v.parses, only_hidden, contained value v, not_contained value v)

  kept_or_not :
      (value : Json)
      → (not (only_hidden P value scanned.hidden_versions scanned.visible_versions) ≡ true)
        ↔ (¬ Vanished P Q version files value)
  kept_or_not value = (
    λ h v. cc (not-true _ h, only_hidden_complete value v),
    λ n. elim (Bool-cases (only_hidden P value scanned.hidden_versions scanned.visible_versions)) [
      | inl h ↦ absurd (n (only_hidden_sound value h))
      | inr h ↦ rw h
    ],
  )

  -- Exactly the versions that did not vanish stay in the list.
  pub kept_versions-Filtered :
      (values : List Json)
      → Filtered
          (λ v. ¬ Vanished P Q version files v)
          values
          (select
            (λ v. not (only_hidden P v scanned.hidden_versions scanned.visible_versions))
            values)
  kept_versions-Filtered values = select-Filtered _ _ kept_or_not values
