-- ===== src/Artifacts/Links.antt =====
-- What `rewrite_urls` registers and shows.
use wheelguard.Base.{
  ◌≡◌, refl, ap, ◌∙◌, true, false, ◌&&◌, String, Option, none, some, List, [], ◌∷◌, map, inl, inr,
  and_true, Bool-cases,
}
use wheelguard.Base.Filtered.{Filtered, done, keep, drop}
use wheelguard.Json.{Json, Items, Fields, null, str, arr, obj, items, elements, is_dict}
use wheelguard.Json.Dict.{get?, get, put, get?-put, elements-items}
use wheelguard.Platform.{Platform, Urls}
use wheelguard.Policy.Release.Visibility.{files_of}
use wheelguard.Artifacts.{
  digest_of, cacheable_parts, cacheable, safe_filename, allowed_https_url, place, rewrite_files,
  rewrite_value, rewrite_urls,
}

module _ (P : Platform) (urls : Urls) (hosts : List String) where
  -- A dictionary with a SHA-256 digest, a safe name and an allowed source.
  pub record IsCacheable (file : Json) : Type 0 where
    pub fields : Fields
    pub dict : file ≡ obj fields
    pub digest : String
    pub hashed : digest_of P urls (get "hashes" fields) ≡ some digest
    pub filename : String
    pub named : get "filename" fields ≡ str filename
    pub safe : safe_filename filename ≡ true
    pub source_url : String
    pub located : get "url" fields ≡ str source_url
    pub allowed : allowed_https_url P urls source_url hosts ≡ true

  -- The file as it is shown: with the link of its digest and name.
  abbrev pub relinked : (String → String → String) → Fields → Option (String × String) → Json
  relinked url_for f none = obj f
  relinked url_for f (some (digest, filename)) = obj (put "url" (str (url_for digest filename)) f)

  abbrev pub relink : (String → String → String) → Json → Json
  relink url_for (obj f) = relinked url_for f (cacheable P urls hosts f)
  relink url_for other = other

  parts_sound :
      (f : Fields) (d : Option String) (n u : Json) (v : String × String)
      → digest_of P urls (get "hashes" f) ≡ d
      → get "filename" f ≡ n
      → get "url" f ≡ u
      → cacheable_parts P urls hosts d n u ≡ some v
      → IsCacheable (obj f)
  unfolding cacheable_parts
  parts_sound f (some d) (str filename) (str url) v h e e' c =
      elim (Bool-cases (safe_filename filename && allowed_https_url P urls url hosts)) [
        | inr k ↦ cc (rw k at c)
        | inl k ↦
            let (s, a) = and_true (safe_filename filename) (allowed_https_url P urls url hosts) k in
            record {
              fields = f;
              dict = refl;
              digest = d;
              hashed = h;
              filename = filename;
              named = e;
              safe = s;
              source_url = url;
              located = e';
              allowed = a;
            }
      ]
  parts_sound f none n u v h e e' c = cc
  parts_sound f (some d) null u v h e e' c = cc
  parts_sound f (some d) (str filename) null v h e e' c = cc
  parts_sound f (some d) (str filename) _ v h e e' c = cc
  parts_sound f (some d) _ u v h e e' c = cc

  cacheable_complete :
      (f : Fields) (c : IsCacheable (obj f))
      → cacheable P urls hosts f ≡ some (c.digest, c.filename)
  unfolding cacheable cacheable_parts
  cacheable_complete f c =
      let e : f ≡ c.fields = cc (c.dict) in
      rw (e, c.hashed, c.named, c.located, c.safe, c.allowed, cacheable_parts)

  not_dict : {file : Json} → is_dict file ≡ false → ¬ IsCacheable file
  not_dict h c = cc (h, ap is_dict c.dict)

  -- The two lists from those of the rest.
  abbrev Splits : (String → String → String) → List Json → List Json × List Json → Type 0
  Splits url_for files (registered, visible) =
      Filtered IsCacheable files registered × (visible ≡ map (relink url_for) registered)

  place-Splits :
      (url_for : String → String → String) (f : Fields) (o : Option (String × String))
      (fs r v : List Json)
      → cacheable P urls hosts f ≡ o
      → Splits url_for fs (r, v)
      → Splits url_for (obj f ∷ fs) (place P urls url_for f o (r, v))
  unfolding place
  place-Splits url_for f none fs r v e s = (drop (λ c. cc (e, cacheable_complete f c)) s.0, s.1)
  place-Splits url_for f (some (d, n)) fs r v e s = (
    keep
        (parts_sound f (digest_of P urls (get "hashes" f)) (get "filename" f) (get "url" f) (d, n)
          refl refl refl (unfold cacheable in e))
        s.0,
    rw (e, s.1),
  )

  rewrite_files-Splits :
      (url_for : String → String → String) (files : List Json)
      → Splits url_for files (rewrite_files P urls hosts url_for files)
  unfolding rewrite_files
  rewrite_files-Splits url_for [] = (done, refl)
  rewrite_files-Splits url_for (obj f ∷ fs) =
      place-Splits url_for f (cacheable P urls hosts f) fs (rewrite_files P urls hosts url_for fs).0
        (rewrite_files P urls hosts url_for fs).1 refl (rewrite_files-Splits url_for fs)
  rewrite_files-Splits url_for (null ∷ fs) = (
    drop (not_dict refl) (rewrite_files-Splits url_for fs).0,
    (rewrite_files-Splits url_for fs).1,
  )
  rewrite_files-Splits url_for (_ ∷ fs) = (
    drop (not_dict refl) (rewrite_files-Splits url_for fs).0,
    (rewrite_files-Splits url_for fs).1,
  )

  -- For a payload with a list of files: exactly the dictionaries with a digest, a safe name and an
  -- allowed HTTPS source are registered, as they came and in their order, and the files of the new
  -- payload are those, each with its new link.
  pub rewrite_urls-files :
      (url_for : String → String → String) (payload : Fields) (files : Items)
      → get? "files" payload ≡ some (arr files)
      → (registered : List Json) × ((rewrite_urls P urls hosts url_for payload).1 ≡ some registered)
        × Filtered IsCacheable (elements files) registered
        × (files_of (rewrite_urls P urls hosts url_for payload).0 ≡ map (relink url_for) registered)
  unfolding rewrite_urls
  rewrite_urls-files url_for payload files h =
      let s = rewrite_files-Splits url_for (elements files) in
      let shown = (rewrite_files P urls hosts url_for (elements files)).1 in
      (
        (rewrite_files P urls hosts url_for (elements files)).0,
        rw (h, rewrite_value),
        s.0,
        rw (h, rewrite_value, get?-put "files" "files" (arr (items shown)) payload)
            (elements-items shown ∙ s.1),
      )
