-- ===== src/Upload/Receive.antt =====
-- upload_form.py: `stream_bytes` and `receive_upload`. The object storage answers each call by the
-- next outcome of a list that the environment chooses; past its end every call fails.
-- A body whose reading breaks off, and an upload that cannot be begun, are not modelled.
use wheelguard.Artifacts.{Bytes}
use wheelguard.Base.{
  ℕ, pos, negsuc, zero, suc, ◌+◌, Bool, true, false, not, ◌&&◌, String, Option, none, some, List,
  [], ◌∷◌, ◌++◌, take, drop, length, codes, leb, ltb, if◌then◌else◌, Result, ok, err,
}
use wheelguard.Base.Decimal.{parse_int}
use wheelguard.Base.Table.{find}
use wheelguard.Upload.{
  UploadError, bad_content_type, invalid_length, upload_too_large, no_body, invalid_multipart,
  storage_failed, FormEvent, bytes_eq, Codecs, Form, new_form, form_limit, handle_all, validate,
}
use wheelguard.Vulnerabilities.{is_nil}

-- `MultipartParser` of python_multipart: a write makes callbacks, and then leaves a parser or
-- raises `MultipartParseError`.
pub record Multipart : Type 1 where
  pub Parser : Type 0
  pub start : Bytes → Parser
  pub write : Parser → Bytes → List FormEvent × Option Parser

-- One multipart upload: the parts that the storage took, and how it ended.
pub record Transfer : Type 0 where
  pub parts : List Bytes
  pub outcomes : List Bool
  pub is_complete : Bool
  pub is_aborted : Bool

-- The bytes of an object, by its parts.
abbrev pub joined : List Bytes → Bytes
joined [] = []
joined (part ∷ parts) = part ++ joined parts

abbrev pub new_transfer : List Bool → Transfer
new_transfer outcomes = record {
  parts = [];
  outcomes = outcomes;
  is_complete = false;
  is_aborted = false;
}

abbrev pub Outcome : Type 0
Outcome = Result UploadError Form × Transfer

-- `for offset in range(0, len(value), size): value[offset : offset + size]`; the fuel bounds the
-- number of slices.
unfoldable pub slices : ℕ → ℕ → Bytes → List Bytes
slices size zero xs = []
slices size (suc fuel) xs =
    let rest = slices size fuel (drop size xs) in if is_nil xs then [] else take size xs ∷ rest

unfoldable pub stream_bytes : List Bytes → List Bytes
unfolding slices
stream_bytes [] = []
stream_bytes (value ∷ values) = slices 65536 (length value) value ++ stream_bytes values

-- `upload.uploadPart(len(parts) + 1, data)`, and what follows when the storage took it
unfoldable pub send_part : (Transfer → Outcome) → Bytes → Transfer → List Bool → Outcome
send_part next content t [] = (err storage_failed, t)
send_part next content t (false ∷ outcomes) = (err storage_failed, record t { outcomes = outcomes })
send_part next content t (true ∷ outcomes) =
    next (record t { parts = t.parts ++ (content ∷ []); outcomes = outcomes })

module _ (part_size : ℕ) where
  -- `while len(form.pending) >= PART_SIZE`, with fuel for the rounds
  unfoldable pub flush : ℕ → (Form → Transfer → Outcome) → Form → Transfer → Outcome
  unfolding send_part
  flush zero next f t = next f t
  flush (suc fuel) next f t =
      let sent =
        send_part (flush fuel next (record f { pending = drop part_size f.pending }))
          (take part_size f.pending) t t.outcomes in
      if leb part_size (length f.pending) then sent else next f t

-- `upload.complete(parts)`
unfoldable pub complete : Form → Transfer → List Bool → Outcome
complete f t [] = (err storage_failed, t)
complete f t (false ∷ outcomes) = (err storage_failed, record t { outcomes = outcomes })
complete f t (true ∷ outcomes) = (ok f, record t { outcomes = outcomes; is_complete = true })

-- `if not complete: await upload.abort()`
abbrev pub abort_unless : Bool → Transfer → Transfer
abort_unless true t = t
abort_unless false t = record t { is_aborted = true }

unfoldable pub settle : Outcome → Outcome
settle (result, t) = (result, abort_unless t.is_complete t)

-- The checks of the length that the request declares.
unfoldable pub declared_error : ℕ → Option String → Option UploadError
unfolding parse_int
declared_error maximum none = none
declared_error maximum (some text) = elim (parse_int text) [
  | none ↦ some invalid_length
  | some (negsuc n) ↦ some upload_too_large
  | some (pos n) ↦ if ltb (maximum + form_limit) n then some upload_too_large else none
]

abbrev pub boundary_of : Option Bytes → Bytes
boundary_of none = []
boundary_of (some b) = b

module _ (C : Codecs) where
  unfoldable pub conclude_upload : Form → Transfer → Result UploadError (Unit {0}) → Outcome
  unfolding send_part complete
  conclude_upload f t (err e) = (err e, t)
  conclude_upload f t (ok valid) =
      if is_nil f.pending
      then complete f t t.outcomes
      else send_part (λ t'. complete (record f { pending = [] }) t' t'.outcomes) f.pending t
          t.outcomes

  module _ (M : Multipart) (part_size : ℕ) where
    -- What a write leaves: the form, and the parser unless it raised.
    unfoldable pub written_chunk :
        (M.Parser → Form → Transfer → Outcome)
        → Result UploadError Form
        → Option M.Parser
        → Transfer
        → Outcome
    unfolding flush
    written_chunk next (err e) parser t = (err e, t)
    written_chunk next (ok f) none t = (err invalid_multipart, t)
    written_chunk next (ok f) (some parser) t = flush part_size (length f.pending) (next parser) f t

    -- The loop over the chunks, and what follows it.
    unfoldable pub receive_chunks : List Bytes → ℕ → M.Parser → Form → Transfer → Outcome
    unfolding written_chunk conclude_upload
    receive_chunks [] total parser f t = conclude_upload f t (validate C f)
    receive_chunks (chunk ∷ chunks) total parser f t =
        let (events, parser') = M.write parser chunk in
        let rest =
          written_chunk (receive_chunks chunks (total + length chunk)) (handle_all C events f)
            parser' t in
        if ltb (f.maximum_bytes + form_limit) (total + length chunk)
        then (err upload_too_large, t)
        else rest

    abbrev pub transferred : Bytes → ℕ → List Bytes → List Bool → Outcome
    transferred boundary maximum body outcomes = settle (
        receive_chunks (stream_bytes body) 0 (M.start boundary) (new_form maximum)
          (new_transfer outcomes))

    -- After the checks of the declared length and the body. No upload is created before them.
    unfoldable pub begin_upload :
        Bytes
        → ℕ
        → Option UploadError
        → Option (List Bytes)
        → List Bool
        → Result UploadError Form × Option Transfer
    unfolding settle receive_chunks stream_bytes
    begin_upload boundary maximum (some e) body outcomes = (err e, none)
    begin_upload boundary maximum none none outcomes = (err no_body, none)
    begin_upload boundary maximum none (some body) outcomes =
        let (result, t) = transferred boundary maximum body outcomes in (result, some t)

    unfoldable pub receive_upload :
        String
        → Option String
        → Option (List Bytes)
        → ℕ
        → List Bool
        → Result UploadError Form × Option Transfer
    unfolding begin_upload declared_error codes find
    receive_upload content_type declared body maximum outcomes =
        let (media_type, options) = C.options_of (some (codes content_type)) in
        let boundary = boundary_of (find bytes_eq (codes "boundary") options) in
        if bytes_eq media_type (codes "multipart/form-data")
          && (not (is_nil boundary) && leb (length boundary) 200)
        then begin_upload boundary maximum (declared_error maximum declared) body outcomes
        else (err bad_content_type, none)
