-- ===== src/Tests/Fetching.antt =====
-- A reply of the upstream repository.
use wheelguard.Base.{◌≡◌, refl, String, none, some, str_eq, if◌then◌else◌, ok}
use wheelguard.Json.{Fields, str, arr, obj, end, field, nil, cons}
use wheelguard.Json.Dict.{get, get?, put}
use wheelguard.Models.{ProjectResponse}
use wheelguard.Platform.{Urls}
use wheelguard.Upstream.{
  ProjectReply, response, absolute_field, absolute_file, project_response, read_body, fetch_project,
}
use wheelguard.Upstream.Fetched.{IsFetchOf, fetch_project-IsFetchOf}

abbrev joining : Urls
joining = record {
  urlsplit = λ s. none;
  urlunsplit = λ a b c d e. c;
  urljoin = λ base link. if str_eq link "a.whl" then "https://h/a.whl" else link;
}

abbrev with_link : String → Fields
with_link link = field "files" (arr (cons (obj (field "url" (str link) end)) nil)) end

abbrev reply : ProjectReply
reply = response 200 (some (obj (with_link "a.whl"))) "https://h/" (some "7")

abbrev fetched : ProjectResponse
fetched = record {
  payload = with_link "https://h/a.whl";
  last_serial = some "7";
  cache_status = "MISS";
}

fetches : fetch_project joining reply ≡ ok fetched
unfolding fetch_project read_body project_response absolute_file absolute_field get get? put
fetches = refl

fetch_project-IsFetchOf_example : IsFetchOf joining reply fetched
fetch_project-IsFetchOf_example = fetch_project-IsFetchOf joining reply fetches
