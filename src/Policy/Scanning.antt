-- ===== src/Policy/Scanning.antt =====
-- What the loop over the files of a project collects, for any test that decides on a file.
use mathlib.Core.List.{append-nil, append_assoc}
use wheelguard.Base.{
  ◌≡◌, refl, sym, ap, ◌∙◌, Bool, not, Option, none, some, List, [], ◌∷◌, ◌++◌, select,
  if◌then◌else◌, Bool-cases, inl, inr,
}
use wheelguard.Json.{Json}
use wheelguard.Policy.{Scan, nothing_scanned, add, show, hide, scan}

-- The versions of some files, in order.
abbrev pub versions_of : {V : Type 0} → (Json → Option V) → List Json → List V
versions_of version [] = []
versions_of version (f ∷ fs) = add (version f) [] ++ versions_of version fs

add-append : {V : Type 0} (o : Option V) (vs : List V) → add o vs ≡ vs ++ add o []
add-append none vs = sym (append-nil vs)
add-append (some v) vs = refl

module _ {V : Type 0} (admits : Json → Bool) (version : Json → Option V) where
  -- The body of the loop: one decision for each file.
  abbrev pub decide : Json → Scan V → Scan V
  decide f s = if admits f then show f (version f) s else hide (version f) s

  -- The scan after a state: it appends what it finds.
  abbrev pub after : Scan V → List Json → Scan V
  after s files = record {
    visible = s.visible ++ select admits files;
    hidden_versions = s.hidden_versions ++ versions_of version (select (λ f. not (admits f)) files);
    visible_versions = s.visible_versions ++ versions_of version (select admits files);
  }

  after-nil : (s : Scan V) → after s [] ≡ s
  after-nil s = λ i. record {
    visible = append-nil s.visible i;
    hidden_versions = append-nil s.hidden_versions i;
    visible_versions = append-nil s.visible_versions i;
  }

  after-cons : (s : Scan V) (f : Json) (fs : List Json) → after (decide f s) fs ≡ after s (f ∷ fs)
  after-cons s f fs = elim (Bool-cases (admits f)) [
    | inl h ↦ rw h (rw (add-append (version f) s.visible_versions) (simp append_assoc))
    | inr h ↦ rw h (rw (add-append (version f) s.hidden_versions) (simp append_assoc))
  ]

  module _ (step : Json → Scan V → Scan V)
      (step_eq : (f : Json) (s : Scan V) → step f s ≡ decide f s) where
    scan_after : (files : List Json) (s : Scan V) → scan step files s ≡ after s files
    unfolding scan
    scan_after [] s = sym (after-nil s)
    scan_after (f ∷ fs) s =
        scan_after fs (step f s) ∙ ap (λ t. after t fs) (step_eq f s) ∙ after-cons s f fs

    -- The whole loop collects the admitted files in order, and the versions on both sides.
    pub scan_lem :
        (files : List Json) → scan step files nothing_scanned ≡ after nothing_scanned files
    scan_lem files = scan_after files nothing_scanned
