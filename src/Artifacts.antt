-- ===== src/Artifacts.antt =====
-- artifacts.py: the rewriting of artifact links, the content-addressed store and the verified
-- download. The store holds the bytes by the path below its root. `hexdigest` is SHA-256.
pub mod Download
pub mod Service
pub mod Redirects
pub mod Verified
pub mod Outcome
pub mod Names
pub mod Links
use wheelguard.Base.{
  ℕ, ℤ, suc, zero, ◌+◌, ◌-ℤ◌, pos, leb_ℤ, leb, ltb, nat_eq, Bool, true, false, not, ◌&&◌, ◌||◌,
  String, ◌<>◌, Option, none, some, List, [], ◌∷◌, ◌++◌, length, any, select, str_eq, is_empty,
  text_length, all_chars, split, if◌then◌else◌, Result, ok, err, ◌>>=◌,
}
use wheelguard.Base.Table.{find, upsert}
use wheelguard.Json.{Json, Fields, str, arr, obj, items, elements}
use wheelguard.Json.Dict.{get?, get, put, list_of}
use wheelguard.Models.{ArtifactRecord, CachedAdvisories}
use wheelguard.Platform.{Platform, Urls, Url}

abbrev pub Bytes : Type 0
Bytes = List ℕ

-- `[0-9a-f]`
abbrev pub is_hex : ℕ → Bool
is_hex c = (leb b'0' c && leb c b'9') || (leb b'a' c && leb c b'f')

-- `SHA256_PATTERN.fullmatch(digest)`
unfoldable pub is_digest : String → Bool
unfolding text_length all_chars
is_digest s = nat_eq (text_length s) 64 && all_chars is_hex s

-- `Path(filename).name`: the last part that is neither empty nor "."
unfoldable pub last_part : List String → String
last_part [] = ""
last_part (part ∷ parts) =
    let rest = last_part parts in
    if not (is_empty rest) then rest else if str_eq part "." then "" else part

unfoldable pub safe_filename : String → Bool
unfolding last_part split
safe_filename filename =
    not (is_empty filename) && str_eq (last_part (split b'/' filename)) filename

unfoldable pub url_parts_allowed : (String → String) → List String → Url → Bool
url_parts_allowed casefold allowed_hosts target = elim target.port [
  | none ↦ false
  | some port ↦
      str_eq target.scheme "https"
      && (elim target.hostname [ none ↦ false | some h ↦ any (str_eq (casefold h)) allowed_hosts ]
          && (elim port [ none ↦ true | some n ↦ nat_eq n 443 ]
              && (elim target.username [ none ↦ true | some _ ↦ false ]
                  && elim target.password [ none ↦ true | some _ ↦ false ])))
]

module _ (P : Platform) (urls : Urls) where
  unfoldable pub allowed_https_url : String → List String → Bool
  unfolding url_parts_allowed
  allowed_https_url url allowed_hosts = elim (urls.urlsplit url) [
    | none ↦ false
    | some target ↦ url_parts_allowed P.casefold allowed_hosts target
  ]

  -- `_sha256`
  unfoldable pub digest_of : Json → Option String
  unfolding is_digest
  digest_of (obj hashes) = elim (get "sha256" hashes) [
    | str digest ↦ let folded = P.casefold digest in if is_digest folded then some folded else none
    | _ ↦ none
  ]
  digest_of _ = none

  -- What a file must have to be registered and shown: its digest, name and source.
  unfoldable pub cacheable_parts :
      List String → Option String → Json → Json → Option (String × String)
  unfolding safe_filename allowed_https_url
  cacheable_parts allowed_hosts (some digest) (str filename) (str source_url) =
      if safe_filename filename && allowed_https_url source_url allowed_hosts
      then some (digest, filename)
      else none
  cacheable_parts allowed_hosts _ _ _ = none

  unfoldable pub cacheable : List String → Fields → Option (String × String)
  unfolding digest_of cacheable_parts
  cacheable allowed_hosts file =
      cacheable_parts allowed_hosts (digest_of (get "hashes" file)) (get "filename" file)
        (get "url" file)

  -- One file in the loop of `rewrite_urls`: it is registered as it came, and shown with a new link.
  unfoldable pub place :
      (String → String → String)
      → Fields
      → Option (String × String)
      → List Json × List Json
      → List Json × List Json
  place url_for f none lists = lists
  place url_for f (some (digest, filename)) (registered, visible) =
      (obj f ∷ registered, obj (put "url" (str (url_for digest filename)) f) ∷ visible)

  -- The loop: the files to register, and those to show.
  unfoldable pub rewrite_files :
      List String → (String → String → String) → List Json → List Json × List Json
  unfolding place
  rewrite_files allowed_hosts url_for [] = ([], [])
  rewrite_files allowed_hosts url_for (obj f ∷ files) =
      place url_for f (cacheable allowed_hosts f) (rewrite_files allowed_hosts url_for files)
  rewrite_files allowed_hosts url_for (file ∷ files) = rewrite_files allowed_hosts url_for files

  -- The new payload, and the files to register; nothing is registered when "files" is no list.
  unfoldable pub rewrite_value :
      List String → (String → String → String) → Option Json → Fields → Fields × Option (List Json)
  rewrite_value allowed_hosts url_for none payload = (put "files" (arr (items [])) payload, some [])
  rewrite_value allowed_hosts url_for (some (arr files)) payload =
      let (registered, visible) = rewrite_files allowed_hosts url_for (elements files) in
      (put "files" (arr (items visible)) payload, some registered)
  rewrite_value allowed_hosts url_for (some _) payload = (payload, none)

  unfoldable pub rewrite_urls :
      List String → (String → String → String) → Fields → Fields × Option (List Json)
  unfolding rewrite_value rewrite_files
  rewrite_urls allowed_hosts url_for payload =
      rewrite_value allowed_hosts url_for (get? "files" payload) payload
