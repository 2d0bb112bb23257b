-- ===== src/Tests/Serving.antt =====
-- The artifact service and the cache on one record and one answer of the network.
use wheelguard.Base.{
  pos, ◌-ℤ◌, leb_ℤ→le, ◌≡◌, ◌≢◌, ◌↔◌, refl, true, false, String, none, some, [], ◌∷◌, ok, err,
  str_eq, if◌then◌else◌,
}
use wheelguard.Models.{ProjectResponse, ArtifactRecord}
use wheelguard.Platform.{Url, Urls}
use wheelguard.Base.{split, split_first, text_length, all_chars}
use wheelguard.Base.Table.{find}
use wheelguard.Database.{get_artifact, Database, empty, put_project, get_project}
use wheelguard.Artifacts.{
  is_digest, last_part, allowed_https_url, url_parts_allowed, Bytes, safe_filename,
}
use wheelguard.Artifacts.Download.{
  declared_too_large, stream_allowed, send, follow, store_reply, finish_download, publish, receive,
  expected_digest, commit, answer, Net, download,
}
use wheelguard.Artifacts.Service.{denial, serve, serve_found, ArtifactService, get_path, authorize}
use wheelguard.Artifacts.Names.{NoSlash, safe_filename_iff}
use wheelguard.Artifacts.Outcome.{Settled, IsCleared, get_path-Settled, authorize_iff}
use wheelguard.Artifacts.Redirects.{Grew, download-Grew}
use wheelguard.Artifacts.Verified.{IsVerified, get_path-IsVerified}
use wheelguard.Cache.{Upstream, not_found, serve_within}
use wheelguard.Cache.Outage.{hit_after_fetch, served_in_outage, get_project-put_project}
use wheelguard.Tests.Samples.{sample, two_releases}

abbrev example_url : Url
example_url = record {
  scheme = "https";
  netloc = "h";
  path = "/a";
  query = "";
  fragment = "";
  hostname = some "h";
  port = some none;
  username = none;
  password = none;
}

abbrev pub urls : Urls
urls = record {
  urlsplit = λ s. if str_eq s "https://h/a" then some example_url else none;
  urlunsplit = λ a b c d e. c;
  urljoin = λ base location. location;
}

abbrev pub service : ArtifactService
service = record {
  maximum_bytes = 10;
  allowed_hosts = "h" ∷ [];
  enforce_advisories = false;
  advisory_ttl = pos 60;
}

abbrev pub digest : String
digest = "dddddddddddddddddddddddddddddddddddddddddddddddddddddddddddddddd"

abbrev pub wheel : ArtifactRecord
wheel = record {
  sha256 = digest;
  filename = "a.whl";
  source_url = "https://h/a";
  size = some (pos 2);
  project = some "a";
  version = some "1";
  verification_sha256 = none;
}

abbrev pub net : Net
net = record { script = answer 200 none ((1 ∷ 2 ∷ []) ∷ []) false ∷ []; requested = [] }

abbrev pub hexdigest : Bytes → String
hexdigest content = digest

-- The catalog with the wheel.
abbrev pub stocked : Database
stocked = record empty { artifacts = ((digest, "a.whl"), wheel) ∷ [] }

-- The wheel is downloaded, checked and stored.
downloads : get_path sample urls hexdigest service stocked (pos 0) digest "a.whl" [] net ≡ (
  ok (digest, "a.whl"),
  ((digest, "a.whl"), 1 ∷ 2 ∷ []) ∷ [],
  record { script = []; requested = "https://h/a" ∷ [] },
)
unfolding get_path is_digest safe_filename last_part split split_first text_length all_chars
    get_artifact find serve_found denial serve download allowed_https_url url_parts_allowed
    declared_too_large stream_allowed send follow store_reply finish_download publish receive
    expected_digest commit
downloads = refl

-- A record that the catalog returns.
abbrev InCatalog : ArtifactRecord → Type 0
InCatalog r = (d : String) × (n : String) × (get_artifact stocked d n ≡ some r)

get_path-IsVerified_example :
    IsVerified InCatalog hexdigest 10
      (get_path sample urls hexdigest service stocked (pos 0) digest "a.whl" [] net).1
get_path-IsVerified_example =
    get_path-IsVerified InCatalog sample urls hexdigest service stocked (pos 0) digest "a.whl" []
      net (λ d n r h. (d, n, h)) tt

get_path-Settled_example :
    Settled []
      (get_path sample urls hexdigest service stocked (pos 0) digest "a.whl" [] net).0
      (get_path sample urls hexdigest service stocked (pos 0) digest "a.whl" [] net).1
get_path-Settled_example =
    get_path-Settled sample urls hexdigest service stocked (pos 0) digest "a.whl" [] net

download-Grew_example :
    Grew sample urls ("h" ∷ []) 6 net (download sample urls ("h" ∷ []) hexdigest 10 wheel [] net).2
download-Grew_example = download-Grew sample urls ("h" ∷ []) hexdigest 10 wheel [] net

authorize_iff_example :
    (authorize empty (pos 60) (pos 0) wheel ≡ none) ↔ IsCleared empty (pos 60) (pos 0) wheel
authorize_iff_example = authorize_iff empty (pos 60) (pos 0) wheel

safe_filename_iff_example :
    (safe_filename ".." ≡ true)
    ↔ (NoSlash ".." × (◌≢◌ {A = String} ".." "") × (◌≢◌ {A = String} ".." "."))
safe_filename_iff_example = safe_filename_iff ".."

-- The parent directory passes as a file name.
parent_is_safe : safe_filename ".." ≡ true
unfolding safe_filename
parent_is_safe = refl

abbrev response : String → ProjectResponse
response status = record { payload = two_releases; last_serial = none; cache_status = status }

abbrev up : Upstream
up name = ok (response "UPSTREAM")

abbrev down : Upstream
down name = err not_found

-- The catalog after one fetch.
abbrev filled : Database
filled = put_project empty "a" (response "UPSTREAM") (pos 0)

nothing_cached : get_project empty "a" ≡ none
unfolding get_project
nothing_cached = refl

cached_later :
    get_project filled "a" ≡ some (record { response = response "HIT"; fetched_at = pos 0 })
cached_later = get_project-put_project empty "a" "a" (response "UPSTREAM") (pos 0)

hit_after_fetch_example :
    ((serve_within up (pos 60) empty "a" (pos 0)).0 ≡ ok (response "MISS"))
    × (serve_within down (pos 60) (serve_within up (pos 60) empty "a" (pos 0)).1 "a" (pos 30)
        ≡ (ok (response "HIT"), (serve_within up (pos 60) empty "a" (pos 0)).1))
unfolding ◌-ℤ◌
hit_after_fetch_example =
    hit_after_fetch up down (pos 60) empty "a" (pos 0) (pos 30) (response "UPSTREAM")
      (λ c e. cc (nothing_cached, e)) refl (leb_ℤ→le (pos 30 -ℤ pos 0) (pos 60) refl)

served_in_outage_example :
    (status : String) × (serve_within down (pos 60) filled "a" (pos 100)
      ≡ (ok (response status), filled))
served_in_outage_example =
    served_in_outage down (pos 60) filled "a" (pos 100)
      (record { response = response "HIT"; fetched_at = pos 0 }) not_found cached_later refl
