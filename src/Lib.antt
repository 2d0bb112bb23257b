-- ===== src/Lib.antt =====
-- wheelguard is a pull-through Python package repository that hides releases which are too new and
-- marks or denies those with known vulnerabilities. A request for a project goes through the
-- metadata cache (src/wheelguard/cache.py), the advisory marks (vulnerabilities.py), the release
-- policy (policy.py) and the rewriting of links (artifacts.py); a request for a file goes through
-- `ArtifactService.get_path`, which authorizes, downloads, checks and stores it. The catalog
-- (database.py) is the state they share. Application models the page of a project in
-- application.py: `simple_project` composes the ownership, the settings, the cache, the
-- advisories, the automatic fallback, the overrides, the release policy and the links in the order
-- of the source. A private package comes in through Upload (upload_form.py: the form that the
-- multipart parser's callbacks fill, and the transfer to the object storage) and Publication
-- (private_service.py: the ownership check, the commit and the deletion of an object that nothing
-- refers to) over Ownership (the private projects of postgres.py). Administration models the
-- overrides, the settings and their audit log in postgres.py; its writes are reached through
-- Application/Access, which has the middleware of the repository, the checks of an administrator
-- and of the origin, and the handlers of overrides and settings (application.py,
-- admin_service.py); RuntimeSettings has the settings and the validation of an update
-- (runtime_settings.py). AzureArtifacts models azure_artifacts.py, where a public file is streamed
-- from a blob container. Identity models identity.py: the Entra principal and the GitLab validator
-- with its cached keys.
--
-- Policy and its children model src/wheelguard/policy.py: `finish`, `only_hidden` and the loop
-- `scan` are shared by MinimumAge (`MinimumAgePolicy.apply`) and Release (`ReleasePolicy.apply`).
-- Vulnerabilities models vulnerabilities.py, Models models.py, Database database.py, Cache
-- cache.py, and Artifacts with Download and Service artifacts.py. Registry models the rows that a
-- payload registers in database.py, Advisories advisories.py (`OsvAdvisoryPolicy.apply` is
-- `osv_apply`, and `evaluate` once its lifetime is chosen), Refresh refresh.py (`refresh_once`),
-- Auth auth.py (`TokenAuthenticator`), Overrides admin.py (`parse_override_request`) and Upstream
-- upstream.py (`PyPIRepository.get_project` after its request). Refresh takes any advisory policy
-- as a parameter. Json is the payload as Python decodes it: an object is an association list in
-- insertion order, and `get?` and `put` are `dict.get` and item assignment. Platform gathers what
-- the sources take from `packaging`, `datetime`, `urllib` and `str.casefold`: it is a parameter of
-- the definitions, and IsLawful states the documented behaviour of versions that some theorems ask
-- for. Base has the lists, strings, tables, integers and the sorting that the parts share.
--
-- Times and intervals are integers of microseconds; a timestamp that `astimezone(UTC)` moves out
-- of the years 1 to 9999 is the exception that the source raises. A loop over a list is recursion
-- on the list; the redirect loop is recursion on the rounds that are left, of which
-- `_stream_allowed` has six, and running out of them is the source's own error. The batches of 500
-- versions of an OSV query are made with as much fuel as there are versions, which is enough since
-- each takes at least one. The loop that sends full parts of an upload has as much fuel as bytes
-- wait, and the slices of a chunk as much as it has bytes; both are enough since a part and a
-- slice have one byte at least. The storage, the public repositories and the database answer an
-- upload as the environment chooses, the database also by an exception before or after it has
-- applied the transaction. The deletion of an object may fail too, before or after the object is
-- gone. The network of a download is a list of replies that the environment chooses, with the
-- trace of the URLs asked for. Sets are lists read through the equality of versions.
--
-- Not modelled: temporary files, the lock of a download (one request runs at a time), SQLite's
-- text form of a payload (which sorts the keys of its objects), logging, the sleep between two
-- rounds of the refresher, the parsers of `packaging`, `datetime`, `urllib` and base64, the
-- closing of clients, the `ValueError` of `urljoin`, the multipart parser, decoding and digests,
-- the freshness of an upload's key (a hypothesis), the other handlers and the rendering of HTTP,
-- the archive checks of distributions.py, repository tokens, the adapters of the Azure SDK and
-- Cloudflare.
pub mod Base
pub mod Json
pub mod Platform
pub mod Policy
pub mod Vulnerabilities
pub mod Models
pub mod Database
pub mod Cache
pub mod Artifacts
pub mod Administration
pub mod Advisories
pub mod Application
pub mod Auth
pub mod AzureArtifacts
pub mod Identity
pub mod Overrides
pub mod Ownership
pub mod Publication
pub mod Refresh
pub mod Registry
pub mod RuntimeSettings
pub mod Upload
pub mod Upstream
pub mod Tests
