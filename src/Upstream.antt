-- ===== src/Upstream.antt =====
-- upstream.py: what `PyPIRepository.get_project` makes of the reply to its request.
pub mod Fetched
use wheelguard.Base.{
  ℕ, Bool, true, false, ◌&&◌, String, Option, none, some, List, map, leb, ltb, nat_eq,
  if◌then◌else◌, Result, ok, err,
}
use wheelguard.Cache.{UpstreamError, not_found, repository}
use wheelguard.Json.{Json, Items, Fields, null, str, arr, obj, items, elements}
use wheelguard.Json.Dict.{get?, get, put}
use wheelguard.Models.{ProjectResponse}
use wheelguard.Platform.{Urls}

-- The response that followed all redirects: its status, its body as JSON if it is any, its URL and
-- its `X-PyPI-Last-Serial`. `unavailable` is an `httpx.HTTPError`.
pub data ProjectReply : Type 0 where
  unavailable : ProjectReply
  response : ℕ → Option Json → String → Option String → ProjectReply

-- `response.is_error` of httpx
abbrev pub is_error : ℕ → Bool
is_error status = leb 400 status && ltb status 600

module _ (U : Urls) where
  -- `file[field] = urljoin(base, file[field])`, for a link that is a text
  unfoldable pub absolute_field : String → String → Json → Fields → Fields
  absolute_field base key (str link) file = put key (str (U.urljoin base link)) file
  absolute_field base key _ file = file

  unfoldable pub absolute_file : String → Json → Json
  unfolding absolute_field
  absolute_file base (obj file) =
      let linked = absolute_field base "url" (get "url" file) file in
      obj (absolute_field base "provenance" (get "provenance" linked) linked)
  absolute_file base other = other

  unfoldable pub project_response :
      String → Option String → Fields → Json → Result UpstreamError ProjectResponse
  unfolding absolute_file
  project_response base serial raw (arr files) = ok (record {
    payload = put "files" (arr (items (map (absolute_file base) (elements files)))) raw;
    last_serial = serial;
    cache_status = "MISS";
  })
  project_response base serial raw _ = err repository

  unfoldable pub read_body :
      String → Option String → Option Json → Result UpstreamError ProjectResponse
  unfolding project_response
  read_body base serial (some (obj raw)) = project_response base serial raw (get "files" raw)
  read_body base serial _ = err repository

  unfoldable pub fetch_project : ProjectReply → Result UpstreamError ProjectResponse
  unfolding read_body
  fetch_project unavailable = err repository
  fetch_project (response status body url serial) =
      if nat_eq status 404
      then err not_found
      else if is_error status
      then err repository
      else read_body url serial body
