-- ===== src/Tests/Uploading.antt =====
-- An upload of three bytes in parts of two, and its publication.
use wheelguard.Artifacts.{Bytes}
use wheelguard.Base.{
  pos, ◌≡◌, refl, true, false, String, Option, none, some, List, [], ◌∷◌, ◌++◌, ◌<>◌, inl, inr, ap,
  subst, str_eq, codes, if◌then◌else◌, Result, ok, err, arith, text_length, all_chars, rstrip_slash,
}
use wheelguard.Base.Table.{find, upsert, delete}
use wheelguard.Ownership.{
  no_projects, private_project, collided, record_private_collisions, publish_private_artifact,
  insert_file, claim, upload_entry, approve_private_project, approve_row, private_artifact,
  first_match, is_claimed,
}
use wheelguard.Platform.{Urls}
use wheelguard.Policy.{lookup}
use wheelguard.Publication.{
  World, answered, deleted, UploadRequest, Replies, Published, Packaging, public_urls, check_urls,
  claimable_row, claimable, saved_row, committed, inspected, received, upload,
}
use wheelguard.Publication.Backed.{IsBacked}
use wheelguard.Publication.Serve.{is_blocked, stored_artifact, artifact, artifact_lem}
use wheelguard.Tests.Owning.{private_wheel, published_catalog}
use wheelguard.Upload.{
  UploadError, FormEvent, part_begin, header_end, headers_finished, part_end, finish, header_field,
  header_value, part_data, bytes_eq, Codecs, Form, new_form, count, valid_filename, append_value,
  begin_part, end_header, named_file, named_part, disposed, finish_headers, add_bytes, add_data,
  end_part, handle, handle_all, field_values, required_field, optional_field, validate,
}
use wheelguard.Upload.Bounded.{IsReceived, handle_all-IsReceived}
use wheelguard.Upload.Receive.{
  Multipart, Transfer, slices, stream_bytes, send_part, flush, complete, conclude_upload,
  written_chunk, receive_chunks, settle, declared_error, begin_upload, receive_upload,
}
use wheelguard.Upload.Transfer.{IsAnswer, receive_upload-IsAnswer}

-- The header values stand for their parsed form.
abbrev named : String → List (Bytes × Bytes)
named name = (codes "name", codes name) ∷ []

abbrev toy_options : Option Bytes → Bytes × List (Bytes × Bytes)
toy_options none = ([], [])
toy_options (some b) =
    if bytes_eq b (1 ∷ [])
    then (codes "form-data", named ":action")
    else if bytes_eq b (2 ∷ [])
    then (codes "form-data", named "protocol_version")
    else if bytes_eq b (3 ∷ [])
    then (
      codes "form-data",
      (codes "name", codes "content") ∷ (codes "filename", codes "a.whl") ∷ [],
    )
    else (codes "multipart/form-data", (codes "boundary", 45 ∷ []) ∷ [])

abbrev toy_text : List String → Bytes → Option String
toy_text [] b = none
toy_text (s ∷ ss) b = if bytes_eq b (codes s) then some s else toy_text ss b

abbrev toy : Codecs
toy = record {
  options_of = toy_options;
  utf8 = toy_text (":action" ∷ "file_upload" ∷ "protocol_version" ∷ "1" ∷ "content" ∷ "a.whl" ∷ []);
  lower = λ s. s;
  sha256 = λ b. "d";
  md5 = λ b. "m";
  md5_base64 = λ b. "m64";
  blake2 = λ b. "b";
}

abbrev part : Bytes → Bytes → List FormEvent → List FormEvent
part header content rest =
    part_begin
    ∷ header_field (codes "Content-Disposition")
    ∷ header_value header
    ∷ header_end
    ∷ headers_finished
    ∷ part_data content
    ∷ part_end
    ∷ rest

abbrev fields_events : List FormEvent
fields_events = part (1 ∷ []) (codes "file_upload") (part (2 ∷ []) (codes "1") [])

abbrev events : List FormEvent
events = fields_events ++ part (3 ∷ []) (7 ∷ 8 ∷ 9 ∷ []) (finish ∷ [])

-- The parser sees the whole form in the first chunk.
abbrev scripted : Multipart
scripted = record { Parser = Unit; start = λ b. tt; write = λ p chunk. (events, some tt) }

abbrev received_form : Result UploadError Form
received_form = handle_all toy events (new_form 10)

abbrev form_of : Result UploadError Form → Form
form_of (ok f) = f
form_of (err e) = new_form 0

abbrev fields_form : Form
fields_form = form_of (handle_all toy fields_events (new_form 10))

fields_received : handle_all toy fields_events (new_form 10) ≡ ok fields_form
unfolding handle_all handle count begin_part end_header named_file named_part disposed
    finish_headers add_bytes add_data end_part append_value valid_filename find
fields_received = refl

handle_all-IsReceived_example : IsReceived 10 [] fields_form
handle_all-IsReceived_example =
    handle_all-IsReceived toy 10 [] fields_events (new_form 10) fields_form
      (record { file = (refl, refl, refl, omega arith); metadata = (omega arith, omega arith) })
      fields_received

receive_upload-IsAnswer_example : IsAnswer toy 10 2 (
    receive_upload toy scripted 2 "multipart/form-data" none
      (some ((0 ∷ []) ∷ []))
      10
      (true ∷ true ∷ true ∷ []))
receive_upload-IsAnswer_example =
    receive_upload-IsAnswer toy 10 2 scripted (omega arith) "multipart/form-data" none
      (some ((0 ∷ []) ∷ [])) (true ∷ true ∷ true ∷ [])

abbrev parts_of : Option Transfer → List Bytes
parts_of none = []
parts_of (some t) = t.parts

-- It arrives in two parts.
parts_example :
    parts_of
      (receive_upload toy scripted 2 "multipart/form-data" none
        (some ((0 ∷ []) ∷ []))
        10
        (true ∷ true ∷ true ∷ [])).1
    ≡ (7 ∷ 8 ∷ []) ∷ (9 ∷ []) ∷ []
unfolding receive_upload begin_upload declared_error settle receive_chunks stream_bytes slices
    written_chunk flush send_part complete conclude_upload validate required_field optional_field
    field_values handle_all handle count begin_part end_header named_file named_part disposed
    finish_headers add_bytes add_data end_part append_value valid_filename find text_length
    all_chars
parts_example = refl

abbrev toy_urls : Urls
toy_urls = record {
  urlsplit = λ s. none;
  urlunsplit = λ a b c d e. c;
  urljoin = λ base path. base <> path;
}

abbrev pub packaging : Packaging
packaging = record {
  quote = λ s. s;
  after_at = λ s. s;
  validate_distribution = λ objects key form. ok ("a", "1", none);
}

abbrev request : UploadRequest
request = record {
  content_type = "multipart/form-data";
  content_length = none;
  body = some ((0 ∷ []) ∷ []);
  base_url = "https://w/";
}

-- No public package has the name.
abbrev replies : Replies
replies = record {
  outcomes = true ∷ true ∷ [];
  head = λ url. some 404;
  commit = answered;
  deletion = deleted;
  uploaded_at = pos 7;
}

abbrev nothing : World
nothing = record { catalog = no_projects; objects = [] }

abbrev uploaded : Result UploadError Published × World
uploaded =
    upload toy_urls packaging "https://u/" toy scripted 10 request replies "k" "gitlab:g/a:s"
      nothing

-- The upload succeeds.
uploaded_example : uploaded.0 ≡ ok (record { project = "a"; filename = "a.whl"; sha256 = "d" })
unfolding upload received inspected claimable claimable_row check_urls public_urls committed
    saved_row private_project collided record_private_collisions publish_private_artifact
    insert_file claim upload_entry upsert delete rstrip_slash receive_upload begin_upload
    declared_error settle receive_chunks stream_bytes slices written_chunk flush send_part complete
    conclude_upload validate required_field optional_field field_values handle_all handle count
    begin_part end_header named_file named_part disposed finish_headers add_bytes add_data end_part
    append_value valid_filename find text_length all_chars
uploaded_example = refl

-- A private file with its object.
abbrev stocked : World
stocked = record { catalog = published_catalog; objects = ("k", 7 ∷ 8 ∷ 9 ∷ []) ∷ [] }

stocked-IsBacked : IsBacked toy stocked.catalog.files stocked.objects
unfolding find insert_file publish_private_artifact approve_private_project approve_row
    private_project collided record_private_collisions upsert
stocked-IsBacked key file (inl e) =
    subst
      (λ f.
        (content : Bytes) × (find str_eq f.object_key stocked.objects ≡ some content)
        × ("d" ≡ f.sha256))
      (ap (λ r. r.1) e) (7 ∷ 8 ∷ 9 ∷ [], refl, refl)
stocked-IsBacked key file (inr m) = absurd m

served : artifact stocked (λ p. []) "d" "a.whl" ≡ ok (some (7 ∷ 8 ∷ 9 ∷ [], private_wheel))
unfolding artifact stored_artifact private_artifact first_match is_claimed is_blocked lookup find
    insert_file publish_private_artifact approve_private_project approve_row private_project
    collided record_private_collisions upsert claim
served = refl

artifact_lem_example :
    (toy.sha256 (7 ∷ 8 ∷ 9 ∷ []) ≡ "d")
    × (private_wheel.filename ≡ "a.whl")
    × (is_claimed (private_project published_catalog "a") ≡ true)
    × (is_blocked [] "1" ≡ false)
artifact_lem_example =
    artifact_lem toy stocked (λ p. []) "d" "a.whl" (7 ∷ 8 ∷ 9 ∷ []) private_wheel stocked-IsBacked
      served
