-- ===== src/Tests/Paging.antt =====
-- The page of a project with two releases, one of which an administrator blocks.
use wheelguard.Administration.{active_overrides, first_of_each, is_active}
use wheelguard.Advisories.{document, noop_apply}
use wheelguard.Application.{
  Clocks, Settings, in_force, State, PageHeaders, Reply, page, Services, advisories_in,
  advisories_from, publish_page, filter_page, evaluated_page, scan_page, fetched_page, public_page,
  simple_project,
}
use wheelguard.Application.Page.{IsPublic, IsPageOf, simple_project-IsPageOf}
use wheelguard.Artifacts.{
  rewrite_urls, rewrite_value, rewrite_files, place, cacheable, cacheable_parts, digest_of,
  is_digest, safe_filename, last_part, allowed_https_url, url_parts_allowed,
}
use wheelguard.Artifacts.Service.{configure_policy}
use wheelguard.Base.{
  ◌<>◌, ends_with, replace_z, ◌-ℤ◌, all_chars, text_length, split, split_first, pos, ◌≡◌, refl,
  true, false, String, none, some, [], ◌∷◌, ok,
}
use wheelguard.Base.Sort.{sort, insert}
use wheelguard.Base.Table.{find, upsert}
use wheelguard.Cache.{get_project_cached, serve_within, refetch, lifetime}
use wheelguard.Database.{empty, put_project, get_project}
use wheelguard.Json.{Json, Fields, null, str, arr, obj, nil, cons, field, end}
use wheelguard.Json.Dict.{get?, get, put, list_of}
use wheelguard.Policy.{
  only_hidden, finish, filename_version, upload_time, is_out_of_range, overflows, lookup, scan,
}
use wheelguard.Policy.Release.{read_overflows, apply, step}
use wheelguard.Registry.{
  register_artifacts, metadata_sha256, artifact_records, file_records, records_of,
}
use wheelguard.Vulnerabilities.{safe_overflows, automatic_fixed_version_allows}
use wheelguard.Tests.Administering.{blocking}
use wheelguard.Tests.Samples.{sample}
use wheelguard.Tests.Serving.{urls, service, digest}
use wheelguard.Tests.Uploading.{packaging}

abbrev release : String → String → Fields
release name time = field "filename" (str name) (
    field "upload-time" (str time) (
      field "hashes" (obj (field "sha256" (str digest) end)) (field "url" (str "https://h/a") end)))

abbrev releases : Fields
releases = field "name" (str "a") (
    field "files"
      (arr (
        cons (obj (release "a-1-py3-none-any.whl" "2024-01-01T00:00:00Z"))
          (cons (obj (release "a-2-py3-none-any.whl" "2024-06-01T00:00:00Z")) nil)))
      end)

abbrev services : Services
services = record {
  platform = sample;
  urls = urls;
  packaging = packaging;
  negotiate = λ accept. some "json";
  canonical = λ s. s;
  upstream = λ name. ok (record { payload = releases; last_serial = none; cache_status = "MISS" });
  osv = λ name versions. document null;
  versions_key = λ versions. "";
  iso = λ t. "";
  public_origin = "https://w";
}

abbrev settings : Settings
settings = record {
  metadata_ttl_seconds = pos 300;
  minimum_age_days = pos 0;
  fallback_minimum_age_hours = pos 1;
  advisory_ttl_seconds = pos 60;
  osv_enabled = false;
  allow_missing_upload_time = true;
  maximum_artifact_bytes = pos 10;
}

abbrev state : State
state = record {
  database = empty;
  decisions = some blocking;
  private_catalog = none;
  artifacts = service;
}

abbrev clocks : Clocks
clocks = record { cached_at = pos 190; scanned_at = pos 210; requested_at = pos 200 }

abbrev answer : Reply
answer = (simple_project services settings (pos 60) "a" none clocks state).0

abbrev payload_of : Reply → Fields
payload_of (page content_type payload headers) = payload
payload_of _ = end

abbrev headers_of : Reply → PageHeaders
headers_of (page content_type payload headers) = headers
headers_of _ = record {
  hidden_files = 0;
  cache = "";
  advisories = "";
  vulnerable_files = 0;
  fallback = false;
  last_serial = none;
}

-- The release that nobody blocks, with its new link.
abbrev shown : Json
shown = obj (
    put "url" (str ("https://w/files/sha256/" <> digest <> "/a-2-py3-none-any.whl"))
      (release "a-2-py3-none-any.whl" "2024-06-01T00:00:00Z"))

-- What the run of a page unfolds.
unfoldable runs : Unit {0}
unfolding simple_project public_page in_force fetched_page evaluated_page scan_page filter_page
    publish_page advisories_in advisories_from get_project_cached serve_within refetch lifetime
    get_project put_project find upsert configure_policy noop_apply rewrite_urls rewrite_value
    rewrite_files place cacheable cacheable_parts digest_of is_digest safe_filename last_part
    allowed_https_url url_parts_allowed all_chars text_length split split_first register_artifacts
    metadata_sha256 artifact_records file_records records_of active_overrides first_of_each
    is_active sort insert only_hidden get? get put finish filename_version upload_time
    is_out_of_range overflows read_overflows safe_overflows lookup scan ends_with replace_z ◌-ℤ◌
    apply step automatic_fixed_version_allows
runs = tt

answered : answer ≡ page "json" (payload_of answer) (headers_of answer)
unfolding runs
answered = refl

listed : list_of (get? "files" (payload_of answer)) ≡ shown ∷ []
unfolding runs
listed = refl

simple_project-IsPageOf_example :
    (services.canonical "a" ≡ services.canonical "a")
    × IsPublic services "a" state.private_catalog
    × IsPageOf services settings (pos 60) "a" clocks state (payload_of answer)
simple_project-IsPageOf_example =
    simple_project-IsPageOf services settings (pos 60) "a" none clocks state "json"
      (payload_of answer) (headers_of answer) answered
