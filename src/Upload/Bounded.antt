-- ===== src/Upload/Bounded.antt =====
-- What a form keeps while it is filled: `handle` over `IsReceived`.
use mathlib.Core.List.{append_assoc}
use wheelguard.Artifacts.{Bytes}
use wheelguard.Base.{
  ℕ, ◌+◌, ◌≤◌, ◌≡◌, refl, sym, ap, subst, ◌∙◌, inl, inr, true, false, Option, none, some, List, [],
  ◌∷◌, ◌++◌, map, length, ltb, leb, length-append, Bool-cases, arith, Result, ok, returned, String,
  Bool, is_some, is_empty, str_eq, codes, Option-cases, not, ◌||◌, ◌&&◌, if◌then◌else◌,
}
use wheelguard.Base.Table.{find}
use wheelguard.Upload.{
  FormEvent, Codecs, Form, form_limit, UploadError, part_begin, header_end, headers_finished,
  part_end, finish, header_field, header_value, part_data, count, begin_part, bytes_eq, Options,
  valid_filename, end_header, named_file, named_part, disposed, finish_headers, add_bytes,
  keep_field, add_data, add_field, end_part, handle, handle_all, lower_bytes,
}

-- The bytes of the headers of the part that is read.
abbrev pub header_bytes : List (Bytes × Bytes) → ℕ
header_bytes [] = 0
header_bytes ((name, text) ∷ headers) = length name + length text + header_bytes headers

-- The metadata that a form holds undecoded.
abbrev pub buffered : Form → ℕ
buffered f = length f.value + length f.header_name + length f.header_text + header_bytes f.headers

-- What was received of the file: the bytes that left for the storage, and those that wait.
abbrev pub HasContent : ℕ → Bytes → ℕ → Bytes → Bytes → ℕ → Type 0
HasContent maximum sent maximum_bytes pending content size =
    (maximum_bytes ≡ maximum)
    × (sent ++ pending ≡ content)
    × (size ≡ length content)
    × (size ≤ maximum)

-- `sent` is what left `pending` for the storage.
pub record IsReceived (maximum : ℕ) (sent : Bytes) (f : Form) : Type 0 where
  pub file : HasContent maximum sent f.maximum_bytes f.pending f.content f.size
  pub metadata : (buffered f ≤ f.overhead) × (f.overhead ≤ form_limit)

header_bytes-append :
    (xs ys : List (Bytes × Bytes)) → header_bytes (xs ++ ys) ≡ header_bytes xs + header_bytes ys
header_bytes-append [] ys = omega arith
header_bytes-append ((a, b) ∷ xs) ys = omega (arith, header_bytes-append xs ys)

length-map : (f : ℕ → ℕ) (xs : Bytes) → length (map f xs) ≡ length xs
length-map f [] = refl
length-map f (x ∷ xs) = omega (arith, length-map f xs)

count_lem :
    (n : ℕ) (f : Form) {g : Form}
    → count n f ≡ ok g
    → (record f { overhead = f.overhead + n } ≡ g) × (f.overhead + n ≤ form_limit)
unfolding count
count_lem n f h = elim (Bool-cases (ltb form_limit (f.overhead + n))) [
  | inl k ↦ cc (rw k at h)
  | inr k ↦ let q = rw k at h in (cc q, ground arith)
]

module _ (C : Codecs) (maximum : ℕ) (sent : Bytes) where
  -- A change of metadata that was counted.
  module _ (f : Form) (r : IsReceived maximum sent f) (n : ℕ) {g : Form}
      (counted : count n f ≡ ok g) where
    begun : IsReceived maximum sent (record g { headers = []; value = [] })
    begun =
        subst (λ g. IsReceived maximum sent (record g { headers = []; value = [] }))
          (count_lem n f counted).0
          (record {
            file = r.file;
            metadata = (omega (arith, r.metadata.0), (count_lem n f counted).1);
          })

    named :
        (chunk : Bytes)
        → length chunk ≡ n
        → IsReceived maximum sent (record g { header_name = g.header_name ++ chunk })
    named chunk e =
        subst (λ g. IsReceived maximum sent (record g { header_name = g.header_name ++ chunk }))
          (count_lem n f counted).0
          (record {
            file = r.file;
            metadata = (
              omega (arith, r.metadata.0, length-append f.header_name chunk),
              (count_lem n f counted).1,
            );
          })

    worded :
        (chunk : Bytes)
        → length chunk ≡ n
        → IsReceived maximum sent (record g { header_text = g.header_text ++ chunk })
    worded chunk e =
        subst (λ g. IsReceived maximum sent (record g { header_text = g.header_text ++ chunk }))
          (count_lem n f counted).0
          (record {
            file = r.file;
            metadata = (
              omega (arith, r.metadata.0, length-append f.header_text chunk),
              (count_lem n f counted).1,
            );
          })

    valued :
        (chunk : Bytes)
        → length chunk ≡ n
        → IsReceived maximum sent (record g { value = g.value ++ chunk })
    valued chunk e =
        subst (λ g. IsReceived maximum sent (record g { value = g.value ++ chunk }))
          (count_lem n f counted).0
          (record {
            file = r.file;
            metadata = (
              omega (arith, r.metadata.0, length-append f.value chunk),
              (count_lem n f counted).1,
            );
          })

  on_return :
      {f g : Form}
      → ◌≡◌ {A = Result UploadError Form} (ok f) (ok g)
      → IsReceived maximum sent f
      → IsReceived maximum sent g
  on_return {f} {g} h r = subst (IsReceived maximum sent) (let q : f ≡ g = cc h in q) r

  end_header-IsReceived :
      (f g : Form) → IsReceived maximum sent f → end_header C f ≡ ok g → IsReceived maximum sent g
  unfolding end_header
  end_header-IsReceived f g r h =
      elim (Bool-cases (is_some (find bytes_eq (lower_bytes f.header_name) f.headers))) [
        | inl k ↦ cc (rw k at h)
        | inr k ↦
            let q = rw k at h in
            on_return q (record {
              file = r.file;
              metadata = (
                omega (
                  arith,
                  r.metadata.0,
                  header_bytes-append f.headers ((lower_bytes f.header_name, f.header_text) ∷ []),
                  length-map (λ c. if leb b'A' c && leb c b'Z' then c + 32 else c) f.header_name,
                ),
                r.metadata.1,
              );
            })
      ]

  named_file-IsReceived :
      (f g : Form) (o : Option String)
      → IsReceived maximum sent f
      → named_file C f o ≡ ok g
      → IsReceived maximum sent g
  unfolding named_file
  named_file-IsReceived f g none r h = cc h
  named_file-IsReceived f g (some filename) r h = elim (Bool-cases (valid_filename filename)) [
    | inl k ↦ let q = rw k at h in on_return q (record { file = r.file; metadata = r.metadata })
    | inr k ↦ cc (rw k at h)
  ]

  named_part-IsReceived :
      (f g : Form) (o : Option String) (file : Option Bytes)
      → IsReceived maximum sent f
      → named_part C f o file ≡ ok g
      → IsReceived maximum sent g
  unfolding named_part
  named_part-IsReceived f g none file r h = cc h
  named_part-IsReceived f g (some name) none r h = elim (Bool-cases (str_eq name "content")) [
    | inl k ↦ cc (rw k at h)
    | inr k ↦ let q = rw k at h in on_return q (record { file = r.file; metadata = r.metadata })
  ]
  named_part-IsReceived f g (some name) (some file) r h =
      elim (Bool-cases (not (str_eq name "content") || not (is_empty f.filename))) [
        | inl k ↦ cc (rw k at h)
        | inr k ↦
            named_file-IsReceived (record f { name = name; is_file = true }) g (C.utf8 file)
              (record { file = r.file; metadata = r.metadata }) (rw k at h)
      ]

  disposed-IsReceived :
      (f g : Form) (header : Bytes × Options)
      → IsReceived maximum sent f
      → disposed C f header ≡ ok g
      → IsReceived maximum sent g
  unfolding disposed
  disposed-IsReceived f g (disposition, options) r h =
      elim (Bool-cases (bytes_eq disposition (codes "form-data"))) [
        | inl k ↦ elim (Option-cases (find bytes_eq (codes "name") options)) [
          | inl e ↦ cc (rw (k, e) at h)
          | inr (name, e) ↦
              named_part-IsReceived f g (C.utf8 name) (find bytes_eq (codes "filename") options) r
                (rw (k, e) at h)
        ]
        | inr k ↦ cc (rw k at h)
      ]

  add_bytes-IsReceived :
      (file : Bool) (chunk : Bytes) (f g : Form)
      → IsReceived maximum sent f
      → add_bytes C file chunk f ≡ ok g
      → IsReceived maximum sent g
  unfolding add_bytes
  add_bytes-IsReceived true chunk f g r h =
      elim (Bool-cases (ltb f.maximum_bytes (f.size + length chunk))) [
        | inl e ↦ cc (rw e at h)
        | inr e ↦
            let (same, all, total, within) = r.file in
            on_return (rw e at h) (record {
              file = (
                same,
                sym (append_assoc sent f.pending chunk) ∙ ap (λ xs. xs ++ chunk) all,
                omega (arith, total, length-append f.content chunk),
                ground (arith, same),
              );
              metadata = r.metadata;
            })
      ]
  add_bytes-IsReceived false chunk f g r h =
      let (c, counted, done) = returned (count (length chunk) f) _ h in
      on_return done (valued f r (length chunk) counted chunk refl)

  add_field-IsReceived :
      (f g : Form) (o : Option String)
      → IsReceived maximum sent f
      → add_field C f o ≡ ok g
      → IsReceived maximum sent g
  add_field-IsReceived f g none r h = cc h
  add_field-IsReceived f g (some value) r h =
      on_return h (record { file = r.file; metadata = r.metadata })

  keep_field-IsReceived :
      (file : Bool) (f g : Form)
      → IsReceived maximum sent f
      → keep_field C file f ≡ ok g
      → IsReceived maximum sent g
  keep_field-IsReceived true f g r h = on_return h r
  keep_field-IsReceived false f g r h = add_field-IsReceived f g (C.utf8 f.value) r h

  pub handle-IsReceived :
      (event : FormEvent) (f g : Form)
      → IsReceived maximum sent f
      → handle C event f ≡ ok g
      → IsReceived maximum sent g
  unfolding handle begin_part finish_headers add_data end_part
  handle-IsReceived part_begin f g r h =
      let (c, counted, done) = returned (count 1 f) _ h in on_return done (begun f r 1 counted)
  handle-IsReceived (header_field chunk) f g r h =
      let (c, counted, done) = returned (count (length chunk) f) _ h in
      on_return done (named f r (length chunk) counted chunk refl)
  handle-IsReceived (header_value chunk) f g r h =
      let (c, counted, done) = returned (count (length chunk) f) _ h in
      on_return done (worded f r (length chunk) counted chunk refl)
  handle-IsReceived header_end f g r h = end_header-IsReceived f g r h
  handle-IsReceived headers_finished f g r h =
      disposed-IsReceived f g (C.options_of (find bytes_eq (codes "content-disposition") f.headers))
        r h
  handle-IsReceived (part_data chunk) f g r h = add_bytes-IsReceived f.is_file chunk f g r h
  handle-IsReceived part_end f g r h = keep_field-IsReceived f.is_file f g r h
  handle-IsReceived finish f g r h = on_return h (record { file = r.file; metadata = r.metadata })

  -- However the parser calls back, a form that is still accepted keeps the file within the limit of
  -- the artifact, holds no more than `form_limit` bytes of undecoded metadata, has counted every
  -- byte of the file, and has each of them either sent or waiting, in order.
  pub handle_all-IsReceived :
      (events : List FormEvent) (f g : Form)
      → IsReceived maximum sent f
      → handle_all C events f ≡ ok g
      → IsReceived maximum sent g
  unfolding handle_all
  handle_all-IsReceived [] f g r h = on_return h r
  handle_all-IsReceived (event ∷ events) f g r h =
      let (c, first, rest) = returned (handle C event f) _ h in
      handle_all-IsReceived events c g (handle-IsReceived event f c r first) rest
