-- ===== src/Upload/Transfer.antt =====
-- What `receive_upload` leaves in the object storage, for every answer that it gives.
use mathlib.Core.List.{append_assoc, append-nil}
use wheelguard.Artifacts.{Bytes}
use wheelguard.Base.Table.{find}
use wheelguard.Base.{
  ℕ, zero, suc, ◌+◌, ◌≤◌, ◌<◌, ◌≡◌, refl, sym, ap, ◌∙◌, inl, inr, Bool, true, false, not, ◌&&◌,
  String, Option, none, some, List, [], ◌∷◌, ◌++◌, take, drop, length, All, codes, leb, ltb,
  Bool-cases, length-drop, length-take, take-append-drop, arith, Result, ok, err,
}
use wheelguard.Vulnerabilities.{is_nil}
use wheelguard.Upload.{
  required_field, optional_field, field_values, bytes_eq, UploadError, FormEvent, Codecs, Form,
  new_form, form_limit, handle_all, validate,
}
use wheelguard.Upload.Bounded.{IsReceived, handle_all-IsReceived}
use wheelguard.Upload.Receive.{
  Multipart, Transfer, joined, new_transfer, Outcome, send_part, flush, complete, conclude_upload,
  written_chunk, receive_chunks, settle, abort_unless, begin_upload, declared_error, receive_upload,
  boundary_of, stream_bytes,
}

joined-append :
    (parts : List Bytes) (part : Bytes) → joined (parts ++ (part ∷ [])) ≡ joined parts ++ part
joined-append [] part = append-nil part
joined-append (p ∷ parts) part =
    ap (λ xs. p ++ xs) (joined-append parts part) ∙ sym (append_assoc p (joined parts) part)

All-append :
    {A : Type 0} (P : A → Type 0) (xs : List A) (x : A) → All P xs → P x → All P (xs ++ (x ∷ []))
All-append P [] x h p = (p, tt)
All-append P (y ∷ xs) x h p = (h.0, All-append P xs x h.1 p)

-- The part that a rest of the file becomes, if it is not empty.
abbrev pub waiting_part : Bytes → List Bytes
waiting_part [] = []
waiting_part (x ∷ xs) = (x ∷ xs) ∷ []

nil_or :
    (xs : Bytes) → (is_nil xs ≡ true → xs ≡ []) × (is_nil xs ≡ false → waiting_part xs ≡ xs ∷ [])
nil_or [] = (λ h. refl, λ h. cc h)
nil_or (x ∷ xs) = (λ h. cc h, λ h. refl)

-- Every part has the full size but the last, which is smaller.
abbrev pub IsCut : ℕ → List Bytes → Type 0
IsCut part_size parts =
    (full : List Bytes) × (rest : Bytes) × (parts ≡ full ++ waiting_part rest)
    × All (λ p. length p ≡ part_size) full
    × (length rest < part_size)

abbrev pub IsOpen : Transfer → Type 0
IsOpen t = (t.is_complete ≡ false) × (t.is_aborted ≡ false)

-- The object is the file that the form received: complete, within the limit, valid, well cut.
pub record IsStored (C : Codecs) (maximum part_size : ℕ) (f : Form) (t : Transfer) : Type 0 where
  pub finished : (t.is_complete ≡ true) × (t.is_aborted ≡ false)
  pub same_bytes : joined t.parts ≡ f.content
  pub sized : (f.size ≡ length f.content) × (f.size ≤ maximum)
  pub valid : validate C f ≡ ok tt
  pub cut : IsCut part_size t.parts

-- What an answer promises of the storage: an object, or an aborted transfer, or none at all.
abbrev pub IsAnswer : Codecs → ℕ → ℕ → Result UploadError Form × Option Transfer → Type 0
IsAnswer C maximum part_size (ok f, some t) = IsStored C maximum part_size f t
IsAnswer C maximum part_size (err e, some t) = (t.is_complete ≡ false) × (t.is_aborted ≡ true)
IsAnswer C maximum part_size (ok f, none) = ⊥
IsAnswer C maximum part_size (err e, none) = Unit

module _ (C : Codecs) (maximum part_size : ℕ) where
  -- Before the abort.
  abbrev IsOutcome : Outcome → Type 0
  IsOutcome (ok f, t) = IsStored C maximum part_size f t
  IsOutcome (err e, t) = IsOpen t

  record IsMidway (f : Form) (t : Transfer) : Type 0 where
    received : IsReceived maximum (joined t.parts) f
    full : All (λ p. length p ≡ part_size) t.parts
    is_open : IsOpen t

  send_part-IsOutcome :
      (next : Transfer → Outcome) (content : Bytes) (t : Transfer) (outcomes : List Bool)
      → IsOpen t
      → ((later : List Bool)
          → IsOutcome (next (record t { parts = t.parts ++ (content ∷ []); outcomes = later })))
      → IsOutcome (send_part next content t outcomes)
  unfolding send_part
  send_part-IsOutcome next content t [] o sent = o
  send_part-IsOutcome next content t (false ∷ outcomes) o sent = o
  send_part-IsOutcome next content t (true ∷ outcomes) o sent = sent outcomes

  -- A full part goes from the form to the storage.
  sent-IsMidway :
      (f : Form) (t : Transfer) (later : List Bool)
      → part_size ≤ length f.pending
      → IsMidway f t
      → IsMidway
          (record f { pending = drop part_size f.pending })
          (record t { parts = t.parts ++ (take part_size f.pending ∷ []); outcomes = later })
  sent-IsMidway f t later enough m =
      let (same, all, counted, within) = m.received.file in
      record {
        received = record {
          file = (
            same,
            ap (λ xs. xs ++ drop part_size f.pending)
                  (joined-append t.parts (take part_size f.pending))
                ∙ append_assoc (joined t.parts) (take part_size f.pending)
                    (drop part_size f.pending)
                ∙ ap (λ xs. joined t.parts ++ xs) (take-append-drop part_size f.pending)
                ∙ all,
            counted,
            within,
          );
          metadata = m.received.metadata;
        };
        full =
            All-append (λ p. length p ≡ part_size) t.parts (take part_size f.pending) m.full
              (length-take part_size f.pending enough);
        is_open = m.is_open;
      }

  -- The fuel is enough: what follows the loop sees less than a part pending.
  flush-IsOutcome :
      (next : Form → Transfer → Outcome)
      → ((f : Form) (t : Transfer)
          → IsMidway f t
          → length f.pending < part_size
          → IsOutcome (next f t))
      → (fuel : ℕ) (f : Form) (t : Transfer) → 1 ≤ part_size
      → length f.pending ≤ fuel
      → IsMidway f t
      → IsOutcome (flush part_size fuel next f t)
  unfolding flush
  flush-IsOutcome next after zero f t p e m = after f t m (omega arith)
  flush-IsOutcome next after (suc fuel) f t p e m =
      elim (Bool-cases (leb part_size (length f.pending))) [
        | inl k ↦ rw k (
            send_part-IsOutcome
              (flush part_size fuel next (record f { pending = drop part_size f.pending }))
              (take part_size f.pending) t t.outcomes m.is_open
              (λ later.
                flush-IsOutcome next after fuel _ _ p
                  (ground (arith, length-drop part_size f.pending))
                  (sent-IsMidway f t later (ground arith) m)))
        | inr k ↦ rw k (after f t m (ground arith))
      ]

  complete-IsOutcome :
      (f : Form) (t : Transfer) (outcomes : List Bool)
      → IsOpen t
      → ((later : List Bool)
          → IsStored C maximum part_size f (record t { outcomes = later; is_complete = true }))
      → IsOutcome (complete f t outcomes)
  unfolding complete
  complete-IsOutcome f t [] o stored = o
  complete-IsOutcome f t (false ∷ outcomes) o stored = o
  complete-IsOutcome f t (true ∷ outcomes) o stored = stored outcomes

  valid_without_pending :
      (f : Form) → validate C f ≡ ok tt → validate C (record f { pending = [] }) ≡ ok tt
  unfolding validate required_field optional_field field_values
  valid_without_pending f h = h

  conclude_upload-IsOutcome :
      (f : Form) (t : Transfer) (result : Result UploadError (Unit {0}))
      → IsMidway f t
      → length f.pending < part_size
      → validate C f ≡ result
      → IsOutcome (conclude_upload C f t result)
  unfolding conclude_upload
  conclude_upload-IsOutcome f t (err e) m small v = m.is_open
  conclude_upload-IsOutcome f t (ok valid) m small v =
      let (same, all, counted, within) = m.received.file in
      elim (Bool-cases (is_nil f.pending)) [
        | inl k ↦ rw k (
            complete-IsOutcome f t t.outcomes m.is_open (λ later. record {
              finished = (refl, m.is_open.1);
              same_bytes =
                  sym (append-nil (joined t.parts))
                  ∙ ap (λ xs. joined t.parts ++ xs) (sym ((nil_or f.pending).0 k))
                  ∙ all;
              sized = (counted, within);
              valid = v;
              cut = (t.parts, [], sym (append-nil t.parts), m.full, omega arith);
            }))
        | inr k ↦ rw k (
            send_part-IsOutcome (λ t'. complete (record f { pending = [] }) t' t'.outcomes)
              f.pending t t.outcomes m.is_open
              (λ now.
                complete-IsOutcome (record f { pending = [] }) _ now m.is_open
                  (λ later. record {
                    finished = (refl, m.is_open.1);
                    same_bytes = joined-append t.parts f.pending ∙ all;
                    sized = (counted, within);
                    valid = valid_without_pending f v;
                    cut = (
                      t.parts,
                      f.pending,
                      ap (λ xs. t.parts ++ xs) (sym ((nil_or f.pending).1 k)),
                      m.full,
                      small,
                    );
                  })))
      ]

  abort-IsAnswer :
      (e : UploadError) (complete : Bool) (t : Transfer)
      → complete ≡ false
      → IsOpen t
      → IsAnswer C maximum part_size (err e, some (abort_unless complete t))
  abort-IsAnswer e true t c o = cc c
  abort-IsAnswer e false t c o = (o.0, refl)

  kept-IsAnswer :
      (f : Form) (complete : Bool) (t : Transfer)
      → complete ≡ true
      → IsStored C maximum part_size f t
      → IsAnswer C maximum part_size (ok f, some (abort_unless complete t))
  kept-IsAnswer f true t c s = s
  kept-IsAnswer f false t c s = cc c

  settle-IsAnswer :
      (outcome : Outcome)
      → IsOutcome outcome
      → IsAnswer C maximum part_size (let (result, t) = settle outcome in (result, some t))
  unfolding settle
  settle-IsAnswer (ok f, t) s = kept-IsAnswer f t.is_complete t s.finished.0 s
  settle-IsAnswer (err e, t) o = abort-IsAnswer e t.is_complete t o.0 o

  module _ (M : Multipart) (p : 1 ≤ part_size) where
    written_chunk-IsOutcome :
        (next : M.Parser → Form → Transfer → Outcome)
        → ((parser : M.Parser) (f : Form) (t : Transfer)
            → IsMidway f t
            → length f.pending < part_size
            → IsOutcome (next parser f t))
        → (events : List FormEvent) (parser : Option M.Parser) (f : Form) (t : Transfer)
        → IsMidway f t
        → (written : Result UploadError Form) → handle_all C events f ≡ written
        → IsOutcome (written_chunk C M part_size next written parser t)
    unfolding written_chunk
    written_chunk-IsOutcome next after events parser f t m (err e) h = m.is_open
    written_chunk-IsOutcome next after events none f t m (ok g) h = m.is_open
    written_chunk-IsOutcome next after events (some parser) f t m (ok g) h =
        flush-IsOutcome (next parser) (after parser) (length g.pending) g t p (omega arith)
          (record {
            received = handle_all-IsReceived C maximum (joined t.parts) events f g m.received h;
            full = m.full;
            is_open = m.is_open;
          })

    receive_chunks-IsOutcome :
        (chunks : List Bytes) (total : ℕ) (parser : M.Parser) (f : Form) (t : Transfer)
        → IsMidway f t
        → length f.pending < part_size
        → IsOutcome (receive_chunks C M part_size chunks total parser f t)
    unfolding receive_chunks
    receive_chunks-IsOutcome [] total parser f t m small =
        conclude_upload-IsOutcome f t (validate C f) m small refl
    receive_chunks-IsOutcome (chunk ∷ chunks) total parser f t m small =
        elim (Bool-cases (ltb (f.maximum_bytes + form_limit) (total + length chunk))) [
          | inl k ↦ rw k m.is_open
          | inr k ↦ rw k (
              written_chunk-IsOutcome (receive_chunks C M part_size chunks (total + length chunk))
                (λ parser' f' t' m' small'.
                  receive_chunks-IsOutcome chunks (total + length chunk) parser' f' t' m' small')
                (M.write parser chunk).0 (M.write parser chunk).1 f t m _ refl)
        ]

    begin_upload-IsAnswer :
        (boundary : Bytes) (declared : Option UploadError) (body : Option (List Bytes))
        (outcomes : List Bool)
        → IsAnswer C maximum part_size
            (begin_upload C M part_size boundary maximum declared body outcomes)
    unfolding begin_upload
    begin_upload-IsAnswer boundary (some e) body outcomes = tt
    begin_upload-IsAnswer boundary none none outcomes = tt
    begin_upload-IsAnswer boundary none (some body) outcomes = settle-IsAnswer _ (
        receive_chunks-IsOutcome (stream_bytes body) 0 (M.start boundary) (new_form maximum)
          (new_transfer outcomes)
          (record {
            received = record {
              file = (refl, refl, refl, omega arith);
              metadata = (omega arith, omega arith);
            };
            full = tt;
            is_open = (refl, refl);
          })
          (omega arith))

    -- Whatever the client sends and however the storage answers: an upload that is accepted leaves
    -- one complete object, whose parts joined are the bytes of the file, which has the size that was
    -- counted, is within the limit and passed the validation, cut into parts of the full size and a
    -- smaller last one; an upload that is refused after its transfer began leaves that transfer
    -- aborted and never completed. The parts are of one byte at least.
    pub receive_upload-IsAnswer :
        (content_type : String) (declared : Option String) (body : Option (List Bytes))
        (outcomes : List Bool)
        → IsAnswer C maximum part_size
            (receive_upload C M part_size content_type declared body maximum outcomes)
    unfolding receive_upload codes find
    receive_upload-IsAnswer content_type declared body outcomes =
        let boundary =
          boundary_of
            (find bytes_eq (codes "boundary") (C.options_of (some (codes content_type))).1) in
        elim (Bool-cases (
          bytes_eq (C.options_of (some (codes content_type))).0 (codes "multipart/form-data")
          && (not (is_nil boundary) && leb (length boundary) 200))) [
            | inl k ↦
                rw k
                  (begin_upload-IsAnswer boundary (declared_error maximum declared) body outcomes)
            | inr k ↦ rw k tt
          ]
