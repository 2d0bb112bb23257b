-- ===== src/Advisories/Marked.antt =====
-- `_apply_advisories` of advisories.py against `apply_advisories` of vulnerabilities.py.
use wheelguard.Base.{
  ◌≡◌, refl, ap, Bool, false, not, String, Option, none, some, List, [], ◌∷◌, map, select, length,
  arith, ◌+◌, ◌<>◌, ◌∙◌, inl, inr, join, if◌then◌else◌, Bool-cases,
}
use wheelguard.Advisories.{
  reason_after, marked_file, identifiers_of, visited, mark_files, marked_result, apply_scan,
}
use wheelguard.Json.{Json, Fields, null, bool, int, float, str, arr, obj, items, elements}
use wheelguard.Json.Dict.{get?, get, put, list_of}
use wheelguard.Platform.{Platform}
use wheelguard.Policy.{filename_version}
use wheelguard.Policy.Release.Visibility.{files_of}
use wheelguard.Vulnerabilities.{
  Advisories, is_nil, ids_of, yank_reason, mark_with, mark, apply_to_files, apply_advisories,
}

module _ (P : Platform) (advisories : Advisories) where
  -- The file is of a release that has advisories.
  abbrev pub is_vulnerable : Json → Bool
  is_vulnerable (obj file) =
      not (is_nil (ids_of P advisories (filename_version P (get "filename" file))))
  is_vulnerable _ = false

  reason_after-yank_reason :
      (existing : Json) (i : String) (ids : List String)
      → reason_after P existing ("Wheelguard advisories: " <> join ", " (i ∷ ids))
        ≡ yank_reason existing (i ∷ ids)
  unfolding reason_after yank_reason
  reason_after-yank_reason (str existing) i ids = refl
  reason_after-yank_reason null i ids = refl
  reason_after-yank_reason (bool b) i ids = refl
  reason_after-yank_reason (int n) i ids = refl
  reason_after-yank_reason (float t) i ids = refl
  reason_after-yank_reason (arr xs) i ids = refl
  reason_after-yank_reason (obj f) i ids = refl

  -- The two bodies of the loop leave the same file.
  marked_file-mark_with :
      (ids : List String) (file : Fields) → (marked_file P ids file).0 ≡ obj (mark_with ids file)
  unfolding marked_file mark_with
  marked_file-mark_with [] file = refl
  marked_file-mark_with (i ∷ ids) file =
      ap
        (λ reason. obj (
          put "wheelguard-advisories" (arr (items (map str (i ∷ ids))))
            (put "yanked" (str reason) file)))
        (reason_after-yank_reason (get "yanked" file) i ids)

  identifiers_of-ids_of :
      (v : Option P.Version) → identifiers_of P advisories v ≡ ids_of P advisories v
  identifiers_of-ids_of none = refl
  identifiers_of-ids_of (some v) = refl

  visited-mark : (file : Json) → (visited P advisories file).0 ≡ mark P advisories file
  unfolding mark
  visited-mark (obj file) =
      marked_file-mark_with (identifiers_of P advisories (filename_version P (get "filename" file)))
        file
      ∙ ap (λ ids. obj (mark_with ids file))
          (identifiers_of-ids_of (filename_version P (get "filename" file)))
  visited-mark null = refl
  visited-mark (bool b) = refl
  visited-mark (int n) = refl
  visited-mark (float t) = refl
  visited-mark (str t) = refl
  visited-mark (arr xs) = refl

  mark_files-map :
      (files : List Json) → (mark_files P advisories files).0 ≡ map (mark P advisories) files
  unfolding mark_files
  mark_files-map [] = refl
  mark_files-map (file ∷ files) =
      ap (λ x. x ∷ (mark_files P advisories files).0) (visited-mark file)
      ∙ ap (◌∷◌ (mark P advisories file)) (mark_files-map files)

  marked_file-count :
      (ids : List String) (file : Fields)
      → (marked_file P ids file).1 ≡ (if not (is_nil ids) then 1 else 0)
  unfolding marked_file
  marked_file-count [] file = refl
  marked_file-count (i ∷ ids) file = refl

  visited-count :
      (file : Json) → (visited P advisories file).1 ≡ (if is_vulnerable file then 1 else 0)
  visited-count (obj file) =
      marked_file-count (identifiers_of P advisories (filename_version P (get "filename" file)))
        file
      ∙ ap (λ ids. if not (is_nil ids) then 1 else 0)
          (identifiers_of-ids_of (filename_version P (get "filename" file)))
  visited-count null = refl
  visited-count (bool b) = refl
  visited-count (int n) = refl
  visited-count (float t) = refl
  visited-count (str t) = refl
  visited-count (arr xs) = refl

  counted :
      (file : Json) (files : List Json)
      → (if is_vulnerable file then 1 else 0) + length (select is_vulnerable files)
        ≡ length (select is_vulnerable (file ∷ files))
  counted file files = elim (Bool-cases (is_vulnerable file)) [
    | inl k ↦ rw k (omega arith)
    | inr k ↦ rw k (omega arith)
  ]

  mark_files-count :
      (files : List Json) → (mark_files P advisories files).1 ≡ length (select is_vulnerable files)
  unfolding mark_files
  mark_files-count [] = refl
  mark_files-count (file ∷ files) =
      ap (λ n. n + (mark_files P advisories files).1) (visited-count file)
      ∙ ap (λ m. (if is_vulnerable file then 1 else 0) + m) (mark_files-count files)
      ∙ counted file files

  -- Both modules mark alike: the payload of the OSV policy's result is the one that
  -- `vulnerabilities.apply_advisories` makes, and `vulnerable_files` counts the files of the
  -- releases that have advisories.
  pub apply_scan-apply_advisories :
      (payload : Fields) (status : String)
      → apply_scan P payload advisories status ≡ record {
        payload = apply_advisories P payload advisories;
        status = status;
        vulnerable_files = length (select is_vulnerable (files_of payload));
      }
  unfolding apply_scan apply_advisories marked_result apply_to_files
  apply_scan-apply_advisories payload status = go (get? "files" payload)
    where
      go :
          (o : Option Json)
          → marked_result P advisories status o payload ≡ record {
            payload = apply_to_files P advisories o payload;
            status = status;
            vulnerable_files = length (select is_vulnerable (list_of o));
          }
      go (some (arr files)) =
          rw (mark_files-map (elements files), mark_files-count (elements files))
      go none = refl
      go (some null) = refl
      go (some _) = refl
