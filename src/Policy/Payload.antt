-- ===== src/Policy/Payload.antt =====
-- The metadata that a policy returns, key by key.
use wheelguard.Base.{◌≡◌, refl, ◌∙◌, false, not, String, Option, some, List, select, str_eq}
use wheelguard.Json.{Json, Items, Fields, arr, items, elements}
use wheelguard.Json.Dict.{get?, get?-put}
use wheelguard.Platform.{Platform}
use wheelguard.Policy.{Scan, only_hidden, prune_versions, finish}

module _ (P : Platform) (s : Scan P.Version) where
  -- The versions that stay.
  abbrev pub kept_versions : Items → List Json
  kept_versions values =
      select (λ v. not (only_hidden P v s.hidden_versions s.visible_versions)) (elements values)

  get?-prune :
      (j : String) (o : Option Json) (result : Fields)
      → str_eq "versions" j ≡ false
      → get? j (prune_versions P s o result) ≡ get? j result
  unfolding prune_versions
  get?-prune j (some (arr values)) result h =
      get?-put "versions" j (arr (items (kept_versions values))) result ∙ rw h
  get?-prune j _ result h = refl

  module _ (payload : Fields) (files : List Json) where
    pub get?-finish_files :
        get? "files" (finish P payload files s).payload ≡ some (arr (items s.visible))
    unfolding finish
    get?-finish_files =
        get?-prune "files" (get? "versions" _) _ refl ∙ get?-put "files" "files" _ payload

    -- A policy changes no other key.
    pub get?-finish_other :
        (j : String)
        → str_eq "files" j ≡ false
        → str_eq "versions" j ≡ false
        → get? j (finish P payload files s).payload ≡ get? j payload
    unfolding finish
    get?-finish_other j f v =
        get?-prune j (get? "versions" _) _ v ∙ get?-put "files" j _ payload ∙ rw f

    pub get?-finish_versions :
        (values : Items)
        → get? "versions" payload ≡ some (arr values)
        → get? "versions" (finish P payload files s).payload
          ≡ some (arr (items (kept_versions values)))
    unfolding finish prune_versions
    get?-finish_versions values h =
        rw (get?-put "files" "versions" (arr (items s.visible)) payload, h, prune_versions)
          (get?-put "versions" "versions" _ _)
