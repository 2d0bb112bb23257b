-- ===== src/Application/Configured.antt =====
-- application.py: the settings in force for one request, from the stored ones and the defaults.
use wheelguard.Base.{
  ℕ, ℤ, pos, negsuc, zero, suc, pos_part, ◌-◌, ◌*◌, Bool, true, false, not, String, Option, none,
  some, List, is_empty, str_eq,
}
use wheelguard.Base.Table.{find}
use wheelguard.Json.{Json, null, bool, int, str}

-- The configured defaults, as a request reads them: whole seconds, days and hours.
pub record Settings : Type 0 where
  pub metadata_ttl_seconds : ℤ
  pub minimum_age_days : ℤ
  pub fallback_minimum_age_hours : ℤ
  pub advisory_ttl_seconds : ℤ
  pub osv_enabled : Bool
  pub allow_missing_upload_time : Bool
  pub maximum_artifact_bytes : ℤ

-- A number of units as a duration in microseconds.
abbrev pub timed : ℕ → ℤ → ℤ
timed unit (pos n) = pos (unit * n)
timed unit (negsuc n) = negsuc (unit * suc n - 1)

abbrev pub Runtime : Type 0
Runtime = List (String × Json)

-- `int(value)` and `bool(value)`; what is stored is an integer or a Boolean, and another value
-- counts as one on which `int` raises.
abbrev pub as_int : Json → Option ℤ
as_int (int n) = some n
as_int (bool true) = some (pos 1)
as_int (bool false) = some (pos 0)
as_int _ = none

abbrev pub truthy : Json → Bool
truthy (bool b) = b
truthy (int (pos zero)) = false
truthy null = false
truthy (str s) = not (is_empty s)
truthy _ = true

abbrev pub int_or : ℤ → Option Json → Option ℤ
int_or default none = some default
int_or default (some v) = as_int v

abbrev pub bool_or : Bool → Option Json → Bool
bool_or default none = default
bool_or default (some v) = truthy v

-- What is in force for one request, in microseconds and bytes.
pub record InForce : Type 0 where
  pub metadata_ttl : ℤ
  pub minimum_age : ℤ
  pub fallback_minimum_age : ℤ
  pub advisory_ttl : ℤ
  pub maximum_bytes : ℕ
  pub osv_enabled : Bool
  pub allow_missing_upload_time : Bool

abbrev pub from_numbers :
    Bool → Bool → Option ℤ → Option ℤ → Option ℤ → Option ℤ → Option ℤ → Option InForce
from_numbers osv missing (some ttl) (some days) (some hours) (some advisory) (some bytes) =
    some (record {
      metadata_ttl = timed 1000000 ttl;
      minimum_age = timed 86400000000 days;
      fallback_minimum_age = timed 3600000000 hours;
      advisory_ttl = timed 1000000 advisory;
      maximum_bytes = pos_part bytes;
      osv_enabled = osv;
      allow_missing_upload_time = missing;
    })
from_numbers osv missing _ _ _ _ _ = none

unfoldable pub in_force : Settings → Runtime → Option InForce
unfolding find
in_force s runtime =
    from_numbers (bool_or s.osv_enabled (find str_eq "osv_enabled" runtime))
      (bool_or s.allow_missing_upload_time (find str_eq "allow_missing_upload_time" runtime))
      (int_or s.metadata_ttl_seconds (find str_eq "metadata_ttl_seconds" runtime))
      (int_or s.minimum_age_days (find str_eq "minimum_age_days" runtime))
      (int_or s.fallback_minimum_age_hours (find str_eq "fallback_minimum_age_hours" runtime))
      (int_or s.advisory_ttl_seconds (find str_eq "advisory_ttl_seconds" runtime))
      (int_or s.maximum_artifact_bytes (find str_eq "maximum_artifact_bytes" runtime))
