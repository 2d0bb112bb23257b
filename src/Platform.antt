-- ===== src/Platform.antt =====
-- What the sources use of code outside the repository: the `packaging` library's versions and its
-- parsers of names and file names, and the standard library's tables of dates and of Unicode.
-- A parser returns `none` where the library raises its exception.
use wheelguard.Base.{ℕ, ℤ, ◌≡◌, Bool, true, false, String, Option}

-- `datetime`: an aware value is its instant in UTC, in microseconds from the epoch.
pub data Moment : Type 0 where
  naive : ℤ → Moment
  aware : ℤ → Moment

pub record Platform : Type 1 where
  pub Version : Type 0
  -- `==` (with `hash`) and `<` of two versions
  pub version_eq : Version → Version → Bool
  pub version_lt : Version → Version → Bool
  -- `Version(text)` and `str(version)`
  pub parse_version : String → Option Version
  pub version_text : Version → String
  -- `parse_wheel_filename(name)[1]` and `parse_sdist_filename(name)[1]`
  pub wheel_version : String → Option Version
  pub sdist_version : String → Option Version
  -- `canonicalize_name(name, validate=True)`
  pub canonicalize_name : String → Option String
  -- `datetime.fromisoformat(text)`
  pub from_iso : String → Option Moment
  -- `text.casefold()`
  pub casefold : String → String

-- Documented behaviour of versions: `==` is an equivalence that equal normalized texts imply (but
-- `1.0` and `1.0.0` are equal with different texts), and `<` is a strict order that is total up to it.
pub record IsLawful (P : Platform) : Type 0 where
  pub eq_of_text : (v w : P.Version) → P.version_text v ≡ P.version_text w → P.version_eq v w ≡ true
  pub eq_sym : (v w : P.Version) → P.version_eq v w ≡ true → P.version_eq w v ≡ true
  pub eq_trans :
      (u v w : P.Version)
      → P.version_eq u v ≡ true
      → P.version_eq v w ≡ true
      → P.version_eq u w ≡ true
  pub lt_irrefl : (v : P.Version) → P.version_lt v v ≡ false
  pub lt_trans :
      (u v w : P.Version)
      → P.version_lt u v ≡ true
      → P.version_lt v w ≡ true
      → P.version_lt u w ≡ true

-- `urllib.parse`: the parts of a URL. `port` is `none` where reading it raises `ValueError`. The
-- `ValueError` of `urljoin` on a link with unbalanced brackets is not modelled.
pub record Url : Type 0 where
  pub scheme : String
  pub netloc : String
  pub path : String
  pub query : String
  pub fragment : String
  pub hostname : Option String
  pub port : Option (Option ℕ)
  pub username : Option String
  pub password : Option String

pub record Urls : Type 0 where
  pub urlsplit : String → Option Url
  -- scheme, netloc, path, query and fragment
  pub urlunsplit : String → String → String → String → String → String
  pub urljoin : String → String → String
