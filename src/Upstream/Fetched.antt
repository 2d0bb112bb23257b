-- ===== src/Upstream/Fetched.antt =====
-- What a fetch that succeeds returns.
use wheelguard.Base.{
  ℕ, ◌≡◌, refl, sym, ap, subst, ◌∙◌, false, String, Option, none, some, List, [], ◌∷◌, map, eq_iff,
  nat_eq, str_eq, Bool-cases, inl, inr, ok,
}
use wheelguard.Json.{Json, Items, Fields, null, bool, int, float, str, arr, obj, items, elements}
use wheelguard.Json.Dict.{get?, get, put, get?-put, get-get?, or_null, elements-items}
use wheelguard.Models.{ProjectResponse}
use wheelguard.Platform.{Urls}
use wheelguard.Policy.Release.Visibility.{files_of}
use wheelguard.Upstream.{
  ProjectReply, unavailable, response, is_error, absolute_field, absolute_file, project_response,
  read_body, fetch_project,
}

module _ (U : Urls) where
  -- A link to a file that is a text is joined with the URL of the page, so is that of its
  -- provenance; what else the file has, and a link that is no text, stays.
  pub record IsLinked (base : String) (file linked : Fields) : Type 0 where
    pub url :
        (link : String)
        → get? "url" file ≡ some (str link)
        → get? "url" linked ≡ some (str (U.urljoin base link))
    pub provenance :
        (link : String)
        → get? "provenance" file ≡ some (str link)
        → get? "provenance" linked ≡ some (str (U.urljoin base link))
    pub other :
        (key : String)
        → str_eq "url" key ≡ false
        → str_eq "provenance" key ≡ false
        → get? key linked ≡ get? key file
    pub no_text :
        (key : String)
        → ((link : String) → ¬ (get? key file ≡ some (str link)))
        → get? key linked ≡ get? key file

  -- Of two values of the list of files: dictionaries with links, or the same value.
  abbrev pub IsLinkedValue : String → Json → Json → Type 0
  IsLinkedValue base (obj file) linked = (f : Fields) × (linked ≡ obj f) × IsLinked base file f
  IsLinkedValue base file linked = linked ≡ file

  abbrev pub AreLinked : String → List Json → List Json → Type 0
  AreLinked base [] linked = linked ≡ []
  AreLinked base (file ∷ files) linked =
      (x : Json) × (xs : List Json) × (linked ≡ x ∷ xs)
      × IsLinkedValue base file x
      × AreLinked base files xs

  field_text :
      (base key link : String) (v : Json) (file : Fields)
      → v ≡ str link
      → get? key (absolute_field U base key v file) ≡ some (str (U.urljoin base link))
  unfolding absolute_field
  field_text base key link v file e =
      rw (e, get?-put key key (str (U.urljoin base link)) file, (eq_iff key key).1 refl) refl

  field_other :
      (base key other : String) (v : Json) (file : Fields)
      → str_eq key other ≡ false
      → get? other (absolute_field U base key v file) ≡ get? other file
  unfolding absolute_field
  field_other base key other (str link) file n = get?-put key other _ file ∙ rw n refl
  field_other base key other null file n = refl
  field_other base key other (bool b) file n = refl
  field_other base key other (int i) file n = refl
  field_other base key other (float t) file n = refl
  field_other base key other (arr xs) file n = refl
  field_other base key other (obj f) file n = refl

  field_no_text :
      (base key : String) (v : Json) (file : Fields)
      → ((link : String) → ¬ (v ≡ str link))
      → absolute_field U base key v file ≡ file
  unfolding absolute_field
  field_no_text base key (str link) file n = absurd (n link refl)
  field_no_text base key null file n = refl
  field_no_text base key (bool b) file n = refl
  field_no_text base key (int i) file n = refl
  field_no_text base key (float t) file n = refl
  field_no_text base key (arr xs) file n = refl
  field_no_text base key (obj f) file n = refl

  got_text : (key link : String) (f : Fields) → get key f ≡ str link → get? key f ≡ some (str link)
  got_text key link f h = back (get? key f) (sym (get-get? key f) ∙ h)
    where
      back : (o : Option Json) → or_null o ≡ str link → o ≡ some (str link)
      back none h = cc h
      back (some v) h = ap some h

  no_text_field :
      (base key : String) (f : Fields)
      → ((link : String) → ¬ (get? key f ≡ some (str link)))
      → absolute_field U base key (get key f) f ≡ f
  no_text_field base key f n =
      field_no_text base key (get key f) f (λ link h. n link (got_text key link f h))

  text_got : (key link : String) (f : Fields) → get? key f ≡ some (str link) → get key f ≡ str link
  text_got key link f h = get-get? key f ∙ ap or_null h

  abbrev joined_url : String → Fields → Fields
  joined_url base file = absolute_field U base "url" (get "url" file) file

  abbrev joined_both : String → Fields → Fields
  joined_both base file =
      absolute_field U base "provenance" (get "provenance" (joined_url base file))
        (joined_url base file)

  provenance_kept :
      (base : String) (file : Fields)
      → get? "provenance" (joined_url base file) ≡ get? "provenance" file
  provenance_kept base file = field_other base "url" "provenance" (get "url" file) file refl

  after_provenance :
      (base key : String) (file : Fields)
      → str_eq "provenance" key ≡ false
      → get? key (joined_both base file) ≡ get? key (joined_url base file)
  after_provenance base key file n =
      field_other base "provenance" key (get "provenance" (joined_url base file))
        (joined_url base file) n

  joined-no_text :
      (base key : String) (file : Fields)
      → ((link : String) → ¬ (get? key file ≡ some (str link)))
      → get? key (joined_both base file) ≡ get? key file
  joined-no_text base key file n = elim (Bool-cases (str_eq "provenance" key)) [
    | inl p ↦
        (let same : "provenance" ≡ key = (eq_iff "provenance" key).0 p in
          subst (λ key. get? key (joined_both base file) ≡ get? key file) same
            (ap (get? "provenance") (
                no_text_field base "provenance" (joined_url base file) (λ link h.
                  n link
                    (ap (λ key. get? key file) (sym same) ∙ sym (provenance_kept base file) ∙ h)))
              ∙ provenance_kept base file))
    | inr p ↦ after_provenance base key file p ∙ elim (Bool-cases (str_eq "url" key)) [
      | inl u ↦
          (let same : "url" ≡ key = (eq_iff "url" key).0 u in
            ap (get? key) (
              no_text_field base "url" file
                (λ link h. n link (ap (λ key. get? key file) (sym same) ∙ h))))
      | inr u ↦ field_other base "url" key (get "url" file) file u
    ]
  ]

  absolute_file-IsLinkedValue :
      (base : String) (file : Json) → IsLinkedValue base file (absolute_file U base file)
  unfolding absolute_file
  absolute_file-IsLinkedValue base (obj file) = (
    joined_both base file,
    refl,
    record {
      url = λ link h.
          after_provenance base "url" file refl
          ∙ field_text base "url" link (get "url" file) file (text_got "url" link file h);
      provenance = λ link h.
          field_text base "provenance" link _ (joined_url base file)
            (text_got "provenance" link (joined_url base file) (provenance_kept base file ∙ h));
      other = λ key u p.
          after_provenance base key file p ∙ field_other base "url" key (get "url" file) file u;
      no_text = λ key n. joined-no_text base key file n;
    },
  )
  absolute_file-IsLinkedValue base null = refl
  absolute_file-IsLinkedValue base (bool b) = refl
  absolute_file-IsLinkedValue base (int i) = refl
  absolute_file-IsLinkedValue base (float t) = refl
  absolute_file-IsLinkedValue base (str t) = refl
  absolute_file-IsLinkedValue base (arr xs) = refl

  map-AreLinked :
      (base : String) (files : List Json) → AreLinked base files (map (absolute_file U base) files)
  map-AreLinked base [] = refl
  map-AreLinked base (file ∷ files) =
      (_, _, refl, absolute_file-IsLinkedValue base file, map-AreLinked base files)

  -- The raw document that a successful fetch was made of.
  pub record IsFetchOf (reply : ProjectReply) (r : ProjectResponse) : Type 0 where
    pub status : ℕ
    pub url : String
    pub raw : Fields
    pub files : Items
    pub replied : reply ≡ response status (some (obj raw)) url r.last_serial
    pub found : nat_eq status 404 ≡ false
    pub succeeded : is_error status ≡ false
    pub listed : get "files" raw ≡ arr files
    pub linked : AreLinked url (elements files) (files_of r.payload)
    pub same : (key : String) → str_eq "files" key ≡ false → get? key r.payload ≡ get? key raw

  response-IsFetchOf :
      (status : ℕ) (url : String) (serial : Option String) (raw : Fields) (files : Json)
      {r : ProjectResponse}
      → nat_eq status 404 ≡ false
      → is_error status ≡ false
      → get "files" raw ≡ files
      → project_response U url serial raw files ≡ ok r
      → IsFetchOf (response status (some (obj raw)) url serial) r
  unfolding project_response
  response-IsFetchOf status url serial raw (arr files) {r} n s e h =
      let q : record {
        payload = put "files" (arr (items (map (absolute_file U url) (elements files)))) raw;
        last_serial = serial;
        cache_status = "MISS";
      }
          ≡ r =
        cc h in
      subst (IsFetchOf (response status (some (obj raw)) url serial)) q (record {
        status = status;
        url = url;
        raw = raw;
        files = files;
        replied = refl;
        found = n;
        succeeded = s;
        listed = e;
        linked =
            rw
              (get?-put "files" "files" (arr (items (map (absolute_file U url) (elements files))))
                raw)
              (rw (elements-items (map (absolute_file U url) (elements files)))
                (map-AreLinked url (elements files)));
        same = λ key k. get?-put "files" key _ raw ∙ rw k refl;
      })
  response-IsFetchOf status url serial raw null n s e h = cc
  response-IsFetchOf status url serial raw _ n s e h = cc

  body-IsFetchOf :
      (status : ℕ) (url : String) (serial : Option String) (body : Option Json)
      {r : ProjectResponse}
      → nat_eq status 404 ≡ false
      → is_error status ≡ false
      → read_body U url serial body ≡ ok r
      → IsFetchOf (response status body url serial) r
  unfolding read_body
  body-IsFetchOf status url serial (some (obj raw)) n s h =
      response-IsFetchOf status url serial raw (get "files" raw) n s refl h
  body-IsFetchOf status url serial none n s h = cc
  body-IsFetchOf status url serial (some null) n s h = cc
  body-IsFetchOf status url serial (some _) n s h = cc

  -- A fetch succeeds only on a reply without an error status whose body is a dictionary with a list
  -- of files. It returns that list, where in each dictionary the `url` and the `provenance` that are
  -- texts are joined with the URL of the reply and all else stays, with every other key of the
  -- document as it came, and the serial of the reply.
  pub fetch_project-IsFetchOf :
      (reply : ProjectReply) {r : ProjectResponse}
      → fetch_project U reply ≡ ok r
      → IsFetchOf reply r
  unfolding fetch_project
  fetch_project-IsFetchOf unavailable h = cc
  fetch_project-IsFetchOf (response status body url serial) h =
      elim (Bool-cases (nat_eq status 404)) [
        | inl n ↦ cc (rw n at h)
        | inr n ↦ elim (Bool-cases (is_error status)) [
          | inl s ↦ cc (rw (n, s) at h)
          | inr s ↦ body-IsFetchOf status url serial body n s (rw (n, s) at h)
        ]
      ]
