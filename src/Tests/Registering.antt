-- ===== src/Tests/Registering.antt =====
-- A registration of one file.
use wheelguard.Base.{◌≡◌, refl, inl, none, some, [], ◌∷◌}
use wheelguard.Base.Table.{upsert}
use wheelguard.Database.{Database, empty, write_artifacts, get_artifact}
use wheelguard.Json.{Fields, str, arr, obj, end, field, nil, cons}
use wheelguard.Json.Dict.{get?, get}
use wheelguard.Models.{ArtifactRecord}
use wheelguard.Platform.{Urls}
use wheelguard.Policy.{filename_version}
use wheelguard.Base.{ends_with}
use wheelguard.Registry.{
  wheel_record, metadata_digest, metadata_sha256, metadata_record, records_of, file_records,
  artifact_records, register_artifacts,
}
use wheelguard.Registry.Found.{get_artifact-register_artifacts}
use wheelguard.Tests.Samples.{sample}

abbrev no_urls : Urls
no_urls = record {
  urlsplit = λ s. none;
  urlunsplit = λ a b c d e. c;
  urljoin = λ base location. location;
}

abbrev file : Fields
file =
    field "hashes" (obj (field "sha256" (str "d") end))
      (field "filename" (str "a-1-py3-none-any.whl") (field "url" (str "https://h/a") end))

abbrev payload : Fields
payload = field "files" (arr (cons (obj file) nil)) end

abbrev row : ArtifactRecord
row = record {
  sha256 = "d";
  filename = "a-1-py3-none-any.whl";
  source_url = "https://h/a";
  size = none;
  project = some "a";
  version = some "1";
  verification_sha256 = some "d";
}

abbrev registered : Database
registered = record empty { artifacts = (("d", "a-1-py3-none-any.whl"), row) ∷ [] }

registers : register_artifacts sample no_urls "a" payload empty ≡ some registered
unfolding register_artifacts artifact_records file_records records_of wheel_record metadata_record
    metadata_sha256 metadata_digest write_artifacts upsert get get? filename_version ends_with
registers = refl

get_artifact-register_artifacts_example :
    (r : ArtifactRecord) × (get_artifact registered "d" "a-1-py3-none-any.whl" ≡ some r)
    × (r.project ≡ some "a")
unfolding get get?
get_artifact-register_artifacts_example =
    get_artifact-register_artifacts "a" sample no_urls payload empty registered file "d"
      "a-1-py3-none-any.whl" "https://h/a" registers (inl refl) refl refl refl
