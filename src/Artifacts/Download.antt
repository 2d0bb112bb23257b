-- ===== src/Artifacts/Download.antt =====
-- artifacts.py: `_stream_allowed` and `_download`. The network answers the
-- requests in their order from a script that the environment chooses; `requested` is the trace of
-- the URLs. A request past the script's end fails. The temporary file, which is removed on every
-- path, and the lock around the download are not modelled: one request runs at a time.
use wheelguard.Base.{
  ℕ, suc, zero, ◌+◌, pos, leb_ℤ, leb, ltb, nat_eq, Bool, true, false, not, ◌&&◌, ◌||◌, String,
  Option, none, some, List, [], ◌∷◌, ◌++◌, length, str_eq, is_empty, if◌then◌else◌, Result, ok, err,
}
use wheelguard.Artifacts.{Bytes, allowed_https_url}
use wheelguard.Base.Table.{find}
use wheelguard.Database.{pair_eq}
use wheelguard.Models.{ArtifactRecord}
use wheelguard.Platform.{Platform, Urls}

pub data Reply : Type 0 where
  failed : Reply
  -- status, `Location`, the chunks of the body, and whether the body breaks off after them
  answer : ℕ → Option String → List Bytes → Bool → Reply

pub record Net : Type 0 where
  pub script : List Reply
  pub requested : List String

pub data ArtifactError : Type 0 where
  not_found : ArtifactError
  no_identity not_evaluated stale_evaluation has_advisories : ArtifactError
  source_not_allowed too_large checksum download_failed : ArtifactError
  redirect_not_allowed no_location redirect_limit : ArtifactError

-- The bytes by digest and file name, the two that a path is made of.
abbrev pub Store : Type 0
Store = List ((String × String) × Bytes)

unfoldable pub send : String → Net → Reply × Net
send url net = elim net.script [
  | [] ↦ (failed, record net { requested = net.requested ++ (url ∷ []) })
  | reply ∷ script ↦ (reply, record { script = script; requested = net.requested ++ (url ∷ []) })
]

-- `REDIRECT_STATUSES`, and `raise_for_status` of httpx
abbrev pub is_redirect : ℕ → Bool
is_redirect s = nat_eq s 301 || (nat_eq s 302 || (nat_eq s 303 || (nat_eq s 307 || nat_eq s 308)))

abbrev pub is_success : ℕ → Bool
is_success s = leb 200 s && ltb s 300

-- `size += len(chunk)` for each chunk, up to the limit; a body that breaks off raises `HTTPError`
unfoldable pub receive : ℕ → ℕ → List Bytes → Bool → Bytes → Result ArtifactError Bytes
receive maximum size [] true content = err download_failed
receive maximum size [] false content = ok content
receive maximum size (chunk ∷ chunks) broken content =
    let rest = receive maximum (size + length chunk) chunks broken (content ++ chunk) in
    if ltb maximum (size + length chunk) then err too_large else rest

-- `self.verification_sha256 or self.sha256`
unfoldable pub expected_digest : ArtifactRecord → String
expected_digest r = elim r.verification_sha256 [
  | none ↦ r.sha256
  | some v ↦ if is_empty v then r.sha256 else v
]

-- `destination.exists()` keeps the file that is there; the name `..` is that of a directory, which
-- exists, so that nothing is stored.
unfoldable pub commit : Store → ArtifactRecord → Bytes → Store
unfolding find
commit store r content =
    if str_eq r.filename ".." then store else elim (find pair_eq (r.sha256, r.filename) store) [
      | some _ ↦ store
      | none ↦ ((r.sha256, r.filename), content) ∷ store
    ]

-- The digest check of a received body, and its place in the store.
unfoldable pub publish :
    (Bytes → String)
    → ArtifactRecord
    → Result ArtifactError Bytes
    → Store
    → Result ArtifactError (String × String) × Store
unfolding expected_digest commit
publish hexdigest r (err e) store = (err e, store)
publish hexdigest r (ok content) store =
    if str_eq (hexdigest content) (expected_digest r)
    then (ok (r.sha256, r.filename), commit store r content)
    else (err checksum, store)

unfoldable pub finish_download :
    (Bytes → String)
    → ℕ
    → ArtifactRecord
    → Reply
    → Store
    → Result ArtifactError (String × String) × Store
unfolding receive publish
finish_download hexdigest maximum r failed store = (err download_failed, store)
finish_download hexdigest maximum r (answer status location chunks broken) store =
    if is_success status
    then publish hexdigest r (receive maximum 0 chunks broken []) store
    else (err download_failed, store)

-- What the stream gave, or the exception that opening it raised.
unfoldable pub store_reply :
    (Bytes → String)
    → ℕ
    → ArtifactRecord
    → Result ArtifactError Reply
    → Store
    → Result ArtifactError (String × String) × Store
unfolding finish_download
store_reply hexdigest maximum r (err e) store = (err e, store)
store_reply hexdigest maximum r (ok reply) store = finish_download hexdigest maximum r reply store

-- `record.size is not None and record.size > self._maximum_bytes`
unfoldable pub declared_too_large : ℕ → ArtifactRecord → Bool
declared_too_large maximum r = elim r.size [ none ↦ false | some n ↦ not (leb_ℤ n (pos maximum)) ]

module _ (P : Platform) (urls : Urls) (allowed_hosts : List String) where
  -- The redirect to a location, if there is one and a round is left.
  unfoldable pub redirect :
      ℕ
      → (String → Net → Result ArtifactError Reply × Net)
      → String
      → Option String
      → Net
      → Result ArtifactError Reply × Net
  redirect left next url none net = (err no_location, net)
  redirect zero next url (some l) net = (err redirect_limit, net)
  redirect (suc _) next url (some l) net = next (urls.urljoin url l) net

  -- One round after the request.
  unfoldable pub follow :
      ℕ
      → (String → Net → Result ArtifactError Reply × Net)
      → String
      → Reply
      → Net
      → Result ArtifactError Reply × Net
  unfolding redirect
  follow left next url failed net = (err download_failed, net)
  follow left next url (answer status location chunks broken) net =
      if is_redirect status
      then redirect left next url location net
      else (ok (answer status location chunks broken), net)

  -- The loop over `range(MAXIMUM_REDIRECTS + 1)`; the argument counts the rounds that are left.
  unfoldable pub stream_allowed : ℕ → String → Net → Result ArtifactError Reply × Net
  unfolding send follow
  stream_allowed zero url net = (err redirect_limit, net)
  stream_allowed (suc left) url net =
      let (reply, net') = send url net in
      if allowed_https_url P urls url allowed_hosts
      then follow left (stream_allowed left) url reply net'
      else (err redirect_not_allowed, net)

  unfoldable pub download :
      (Bytes → String)
      → ℕ
      → ArtifactRecord
      → Store
      → Net
      → Result ArtifactError (String × String) × Store × Net
  download hexdigest maximum r store net =
      if not (allowed_https_url P urls r.source_url allowed_hosts)
      then (err source_not_allowed, store, net)
      else if declared_too_large maximum r
      then (err too_large, store, net)
      else (let (opened, net') = stream_allowed 6 r.source_url net in
          let (result, store') = store_reply hexdigest maximum r opened store in
          (result, store', net'))
