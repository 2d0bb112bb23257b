-- ===== src/Upload.antt =====
-- upload_form.py: `UploadForm`, the events of the multipart parser that fill it, and `validate`.
pub mod Receive
pub mod Bounded
pub mod Transfer
use wheelguard.Artifacts.{Bytes}
use wheelguard.Base.{
  ℕ, ◌+◌, Bool, true, false, not, ◌&&◌, ◌||◌, String, Option, none, some, List, [], ◌∷◌, ◌++◌, map,
  length, all_chars, any, text_length, codes, is_some, is_empty, leb, ltb, nat_eq, str_eq,
  if◌then◌else◌, Result, ok, err, ◌>>=◌,
}
use wheelguard.Base.Table.{find, upsert}
use wheelguard.Vulnerabilities.{is_nil}

abbrev pub form_limit : ℕ
form_limit = 1048576

-- The messages of `UploadError`.
pub data UploadError : Type 0 where
  bad_content_type metadata_too_large duplicate_header invalid_field extra_file : UploadError
  invalid_filename file_without_name names_not_utf8 metadata_not_utf8 artifact_too_large :
      UploadError
  ambiguous_field incomplete unsupported_protocol : UploadError
  sha256_mismatch md5_mismatch blake2_mismatch attestations : UploadError
  invalid_length upload_too_large no_body invalid_multipart : UploadError
  -- The ownership of the name: a public package, by name and origin, or a check that failed.
  collision : String → String → UploadError
  unchecked_ownership inconclusive_ownership different_bytes : UploadError
  -- Exceptions of the object storage and of the database, which are no `UploadError`.
  storage_failed database_failed : UploadError

-- The HTTP status of an error, 400 unless it says otherwise.
unfoldable pub status_of : UploadError → ℕ
status_of bad_content_type = 415
status_of metadata_too_large = 413
status_of artifact_too_large = 413
status_of upload_too_large = 413
status_of (collision name origin) = 409
status_of different_bytes = 409
status_of unchecked_ownership = 503
status_of inconclusive_ownership = 503
status_of storage_failed = 500
status_of database_failed = 500
status_of _ = 400

-- The parser's callbacks, with the slice of the data that each is given.
pub data FormEvent : Type 0 where
  part_begin header_end headers_finished part_end finish : FormEvent
  header_field header_value part_data : Bytes → FormEvent

abbrev pub bytes_eq : Bytes → Bytes → Bool
bytes_eq [] [] = true
bytes_eq [] (y ∷ ys) = false
bytes_eq (x ∷ xs) [] = false
bytes_eq (x ∷ xs) (y ∷ ys) = nat_eq x y && bytes_eq xs ys

-- `bytes.lower`
abbrev pub lower_bytes : Bytes → Bytes
lower_bytes = map (λ c. if leb b'A' c && leb c b'Z' then c + 32 else c)

abbrev pub Options : Type 0
Options = List (Bytes × Bytes)

-- What the form takes from libraries: `parse_options_header` of python_multipart, decoding,
-- `str.lower` and the digests, which are functions of all bytes that were fed to them.
pub record Codecs : Type 0 where
  pub options_of : Option Bytes → Bytes × Options
  pub utf8 : Bytes → Option String
  pub lower : String → String
  pub sha256 : Bytes → String
  pub md5 : Bytes → String
  pub md5_base64 : Bytes → String
  pub blake2 : Bytes → String

pub record Form : Type 0 where
  pub maximum_bytes : ℕ
  pub fields : List (String × List String)
  pub filename : String
  pub size : ℕ
  -- the bytes that the digests have seen
  pub content : Bytes
  pub pending : Bytes
  pub finished : Bool
  pub name : String
  pub is_file : Bool
  pub value : Bytes
  pub header_name : Bytes
  pub header_text : Bytes
  pub headers : List (Bytes × Bytes)
  pub overhead : ℕ

abbrev pub new_form : ℕ → Form
new_form maximum_bytes = record {
  maximum_bytes = maximum_bytes;
  fields = [];
  filename = "";
  size = 0;
  content = [];
  pending = [];
  finished = false;
  name = "";
  is_file = false;
  value = [];
  header_name = [];
  header_text = [];
  headers = [];
  overhead = 0;
}

-- `_count`
unfoldable pub count : ℕ → Form → Result UploadError Form
count n f =
    if ltb form_limit (f.overhead + n)
    then err metadata_too_large
    else ok (record f { overhead = f.overhead + n })

-- `[A-Za-z0-9_.+-]`
abbrev pub is_name_char : ℕ → Bool
is_name_char c =
    (leb b'A' c && leb c b'Z')
    || ((leb b'a' c && leb c b'z')
        || ((leb b'0' c && leb c b'9')
            || (nat_eq c b'_' || (nat_eq c b'.' || (nat_eq c b'+' || nat_eq c b'-')))))

unfoldable pub valid_filename : String → Bool
unfolding text_length all_chars
valid_filename s = leb (text_length s) 255 && (not (is_empty s) && all_chars is_name_char s)

-- `self.fields.setdefault(name, []).append(value)`
unfoldable pub append_value :
    String → String → List (String × List String) → List (String × List String)
append_value k v [] = (k, v ∷ []) ∷ []
append_value k v ((j, vs) ∷ m) =
    if str_eq j k then (j, vs ++ (v ∷ [])) ∷ m else (j, vs) ∷ append_value k v m

module _ (C : Codecs) where
  unfoldable pub begin_part : Form → Result UploadError Form
  unfolding count
  begin_part f = count 1 f >>= λ g. ok (record g { headers = []; value = [] })

  unfoldable pub end_header : Form → Result UploadError Form
  unfolding find
  end_header f =
      let key = lower_bytes f.header_name in
      if is_some (find bytes_eq key f.headers)
      then err duplicate_header
      else ok (record f {
        headers = f.headers ++ ((key, f.header_text) ∷ []);
        header_name = [];
        header_text = [];
      })

  -- The file name of the content part, decoded.
  unfoldable pub named_file : Form → Option String → Result UploadError Form
  unfolding valid_filename
  named_file f none = err names_not_utf8
  named_file f (some filename) =
      if valid_filename filename
      then ok (record f { filename = filename })
      else err invalid_filename

  -- A field of this name, with its `filename` option, if it has one.
  unfoldable pub named_part : Form → Option String → Option Bytes → Result UploadError Form
  unfolding named_file
  named_part f none file = err names_not_utf8
  named_part f (some name) none =
      if str_eq name "content"
      then err file_without_name
      else ok (record f { name = name; is_file = false })
  named_part f (some name) (some file) =
      if not (str_eq name "content") || not (is_empty f.filename)
      then err extra_file
      else named_file (record f { name = name; is_file = true }) (C.utf8 file)

  unfoldable pub disposed : Form → Bytes × Options → Result UploadError Form
  unfolding named_part codes find
  disposed f (disposition, options) =
      if bytes_eq disposition (codes "form-data")
      then elim (find bytes_eq (codes "name") options) [
        | none ↦ err invalid_field
        | some name ↦ named_part f (C.utf8 name) (find bytes_eq (codes "filename") options)
      ]
      else err invalid_field

  unfoldable pub finish_headers : Form → Result UploadError Form
  unfolding disposed find codes
  finish_headers f =
      disposed f (C.options_of (find bytes_eq (codes "content-disposition") f.headers))

  -- The data of a file, or of a field.
  unfoldable pub add_bytes : Bool → Bytes → Form → Result UploadError Form
  unfolding count
  add_bytes true chunk f =
      if ltb f.maximum_bytes (f.size + length chunk)
      then err artifact_too_large
      else ok (record f {
        size = f.size + length chunk;
        content = f.content ++ chunk;
        pending = f.pending ++ chunk;
      })
  add_bytes false chunk f =
      count (length chunk) f >>= λ g. ok (record g { value = g.value ++ chunk })

  unfoldable pub add_data : Bytes → Form → Result UploadError Form
  unfolding add_bytes
  add_data chunk f = add_bytes f.is_file chunk f

  abbrev pub add_field : Form → Option String → Result UploadError Form
  add_field f none = err metadata_not_utf8
  add_field f (some value) = ok (record f { fields = append_value f.name value f.fields })

  abbrev pub keep_field : Bool → Form → Result UploadError Form
  keep_field true f = ok f
  keep_field false f = add_field f (C.utf8 f.value)

  unfoldable pub end_part : Form → Result UploadError Form
  unfolding append_value
  end_part f = keep_field f.is_file f

  unfoldable pub handle : FormEvent → Form → Result UploadError Form
  unfolding begin_part count end_header finish_headers add_data end_part
  handle part_begin f = begin_part f
  handle (header_field chunk) f =
      count (length chunk) f >>= λ g. ok (record g { header_name = g.header_name ++ chunk })
  handle (header_value chunk) f =
      count (length chunk) f >>= λ g. ok (record g { header_text = g.header_text ++ chunk })
  handle header_end f = end_header f
  handle headers_finished f = finish_headers f
  handle (part_data chunk) f = add_data chunk f
  handle part_end f = end_part f
  handle finish f = ok (record f { finished = true })

  unfoldable pub handle_all : List FormEvent → Form → Result UploadError Form
  unfolding handle
  handle_all [] f = ok f
  handle_all (event ∷ events) f = handle event f >>= λ g. handle_all events g

  abbrev pub single : List String → Result UploadError String
  single (v ∷ []) = ok v
  single _ = err ambiguous_field

  abbrev pub values_of : Option (List String) → List String
  values_of none = []
  values_of (some vs) = vs

  unfoldable pub field_values : String → Form → List String
  unfolding find
  field_values name f = values_of (find str_eq name f.fields)

  -- `field(name)`, and `field(name, required=False)`
  unfoldable pub required_field : String → Form → Result UploadError String
  unfolding field_values
  required_field name f = single (field_values name f)

  unfoldable pub optional_field : String → Form → Result UploadError String
  unfolding field_values
  optional_field name f =
      if is_nil (field_values name f) then ok "" else single (field_values name f)

  abbrev pub require : Bool → UploadError → Result UploadError (Unit {0})
  require true e = ok tt
  require false e = err e

  -- Whether the upload is whole, and speaks the protocol.
  abbrev pub is_whole : Form → Bool
  is_whole f = f.finished && (not (is_empty f.filename) && not (nat_eq f.size 0))

  abbrev pub accepts : String → Bool → Bool
  accepts supplied matches = is_empty supplied || matches

  unfoldable pub validate : Form → Result UploadError (Unit {0})
  unfolding required_field optional_field find
  validate f = do
    whole ← require (is_whole f) incomplete
    action ← required_field ":action" f
    file_upload ← require (str_eq action "file_upload") unsupported_protocol
    version ← required_field "protocol_version" f
    version_one ← require (str_eq version "1") unsupported_protocol
    digest ← optional_field "sha256_digest" f
    sha256_right ←
        require (accepts digest (str_eq (C.lower digest) (C.sha256 f.content))) sha256_mismatch
    md5 ← optional_field "md5_digest" f
    md5_right ←
        require (accepts md5 (str_eq md5 (C.md5 f.content) || str_eq md5 (C.md5_base64 f.content)))
          md5_mismatch
    blake2 ← optional_field "blake2_256_digest" f
    blake2_right ←
        require (accepts blake2 (str_eq (C.lower blake2) (C.blake2 f.content))) blake2_mismatch
    require (not (is_some (find str_eq "attestations" f.fields))) attestations
