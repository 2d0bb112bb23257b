-- ===== src/Registry.antt =====
-- database.py: `_artifact_records` and `register_artifacts`, which turn the files of a payload into
-- the rows that `get_artifact` finds. `none` is the `ValueError` of `urlsplit`.
pub mod Found
use wheelguard.Base.{
  ℕ, ℤ, pos, Bool, true, false, ◌&&◌, ◌||◌, leb, nat_eq, String, ◌<>◌, Option, none, some, List, [],
  ◌∷◌, ◌++◌, text_length, all_chars, if◌then◌else◌,
}
use wheelguard.Database.{Database, write_artifacts}
use wheelguard.Json.{Json, Fields, bool, int, str, obj}
use wheelguard.Json.Dict.{get?, get, list_of}
use wheelguard.Models.{ArtifactRecord}
use wheelguard.Platform.{Platform, Urls}
use wheelguard.Policy.{filename_version}

-- `character in "0123456789abcdefABCDEF"`
abbrev pub is_hex_digit : ℕ → Bool
is_hex_digit c =
    (leb b'0' c && leb c b'9') || ((leb b'a' c && leb c b'f') || (leb b'A' c && leb c b'F'))

-- `size if isinstance(size, int) else None`; a Boolean is an integer.
abbrev pub size_of : Json → Option ℤ
size_of (int n) = some n
size_of (bool b) = some (pos (if b then 1 else 0))
size_of _ = none

-- `hashes.get("sha256") if isinstance(hashes, dict) else None`
abbrev pub hash_of : Json → Json
hash_of (obj hashes) = get "sha256" hashes
hash_of _ = Json.null

abbrev pub join_records :
    Option (List ArtifactRecord) → Option (List ArtifactRecord) → Option (List ArtifactRecord)
join_records (some rs) (some ss) = some (rs ++ ss)
join_records _ _ = none

module _ (P : Platform) (U : Urls) where
  abbrev pub checked_digest : Json → Option String
  checked_digest (str digest) =
      if nat_eq (text_length digest) 64 && all_chars is_hex_digit digest
      then some (P.casefold digest)
      else none
  checked_digest _ = none

  abbrev pub or_else : Option String → Option String → Option String
  or_else none other = other
  or_else (some d) other = some d

  unfoldable pub metadata_digest : List String → Fields → Option String
  metadata_digest [] file = none
  metadata_digest (key ∷ keys) file =
      or_else (checked_digest (hash_of (get key file))) (metadata_digest keys file)

  unfoldable pub metadata_sha256 : Fields → Option String
  unfolding metadata_digest
  metadata_sha256 file =
      metadata_digest
        ("core-metadata" ∷ "dist-info-metadata" ∷ "data-core-metadata" ∷ "data-dist-info-metadata"
          ∷ [])
        file

  unfoldable pub append_metadata : String → Option String
  append_metadata url = elim (U.urlsplit url) [
    | none ↦ none
    | some parts ↦
        some (U.urlunsplit parts.scheme parts.netloc (parts.path <> ".metadata") parts.query "")
  ]

  abbrev pub version_text_of : String → Option String
  version_text_of filename = elim (filename_version P (str filename)) [
    | none ↦ none
    | some v ↦ some (P.version_text v)
  ]

  unfoldable pub wheel_record : String → String → String → String → Json → ArtifactRecord
  wheel_record project digest filename source_url size = record {
    sha256 = P.casefold digest;
    filename = filename;
    source_url = source_url;
    size = size_of size;
    project = some project;
    version = version_text_of filename;
    verification_sha256 = some (P.casefold digest);
  }

  unfoldable pub metadata_record :
      String → String → String → Option String → Option String → Option (List ArtifactRecord)
  metadata_record project digest filename none url = some []
  metadata_record project digest filename (some m) none = none
  metadata_record project digest filename (some m) (some url) = some (
      record {
        sha256 = P.casefold digest;
        filename = filename <> ".metadata";
        source_url = url;
        size = none;
        project = some project;
        version = version_text_of filename;
        verification_sha256 = some m;
      }
      ∷ [])

  -- The records of one file, by its digest, name and link.
  unfoldable pub records_of : String → Fields → Json → Json → Json → Option (List ArtifactRecord)
  unfolding metadata_record
  records_of project file (str digest) (str filename) (str source_url) =
      join_records (some (wheel_record project digest filename source_url (get "size" file) ∷ [])) (
        metadata_record project digest filename (metadata_sha256 file) (append_metadata source_url))
  records_of project file _ _ _ = some []

  unfoldable pub file_records : String → Json → Option (List ArtifactRecord)
  file_records project (obj file) =
      records_of project file (hash_of (get "hashes" file)) (get "filename" file) (get "url" file)
  file_records project _ = some []

  unfoldable pub artifact_records : String → List Json → Option (List ArtifactRecord)
  artifact_records project [] = some []
  artifact_records project (file ∷ files) =
      join_records (file_records project file) (artifact_records project files)

  -- `register_artifacts`: nothing is written when a record cannot be made.
  unfoldable pub register_artifacts : String → Fields → Database → Option Database
  unfolding write_artifacts
  register_artifacts project payload db =
      elim (artifact_records project (list_of (get? "files" payload))) [
        | none ↦ none
        | some records ↦ some (record db { artifacts = write_artifacts records db.artifacts })
      ]
