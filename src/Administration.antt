-- ===== src/Administration.antt =====
-- postgres.py: the administrators' overrides and settings, with the audit log. Each method is one
-- transaction. An identifier is the canonical text of a UUID: one that is made is an argument, and one
-- of a request is made canonical by the handlers (Application.Access), before the transaction.
pub mod Newest
pub mod Changes
use wheelguard.Base.{
  ℤ, Bool, true, false, not, ◌&&◌, String, Option, none, some, List, [], ◌∷◌, ◌++◌, map, select,
  any, is_some, str_eq, leb_ℤ, if◌then◌else◌, Result, ok, err, ◌>>=◌,
}
use wheelguard.Base.Sort.{sort}
use wheelguard.Base.Table.{find, upsert, delete}
use wheelguard.Json.{Json}
use wheelguard.Overrides.{OverrideRequest}
use wheelguard.Policy.Release.{Overrides}

-- A row of `policy_overrides`.
pub record OverrideRow : Type 0 where
  pub id : String
  pub project : String
  pub version : String
  pub action : String
  pub reason : String
  pub created_at : ℤ
  pub created_by : String
  pub expires_at : Option ℤ
  pub revoked_at : Option ℤ
  pub revoked_by : Option String
  pub revoke_reason : Option String

-- What `policy_audit` records of an event.
pub data Event : Type 0 where
  override_created : String → OverrideRow → Option String → Event
  override_revoked : String → Option String → Event
  settings_updated : List (String × Json) → Event
  settings_reset : String → Event

pub record AuditRow : Type 0 where
  pub event : Event
  pub actor : String
  pub occurred_at : ℤ

pub record Decisions : Type 0 where
  pub overrides : List OverrideRow
  pub settings : List (String × Json)
  pub audit : List AuditRow

-- `KeyError`: no active override of the identifier
pub data RevokeError : Type 0 where
  no_active_override : RevokeError

-- `expires_at IS NULL OR expires_at > now`
abbrev pub unexpired : ℤ → Option ℤ → Bool
unexpired now none = true
unexpired now (some at) = not (leb_ℤ at now)

unfoldable pub is_active : String → ℤ → OverrideRow → Bool
is_active project now row =
    str_eq row.project project && (not (is_some row.revoked_at) && unexpired now row.expires_at)

-- `created_at DESC`
abbrev pub newer : OverrideRow → OverrideRow → Bool
newer a b = not (leb_ℤ a.created_at b.created_at)

-- `DISTINCT ON (version)`: the first row of each version
unfoldable pub first_of_each : List String → List OverrideRow → Overrides
first_of_each seen [] = []
first_of_each seen (row ∷ rows) =
    let again = first_of_each seen rows in
    let rest = first_of_each (row.version ∷ seen) rows in
    if any (λ v. str_eq v row.version) seen then again else (row.version, row.action) ∷ rest

-- The order by version is that of the keys of a dictionary, which is not observed.
unfoldable pub active_overrides : Decisions → String → ℤ → Overrides
unfolding first_of_each sort is_active
active_overrides d project now =
    first_of_each [] (sort newer (select (is_active project now) d.overrides))

abbrev pub is_live : String → OverrideRow → Bool
is_live id row = str_eq row.id id && not (is_some row.revoked_at)

-- `UPDATE policy_overrides SET revoked_at = … WHERE id = … AND revoked_at IS NULL`
unfoldable pub revoke_rows : String → ℤ → String → String → List OverrideRow → List OverrideRow
revoke_rows id now actor why [] = []
revoke_rows id now actor why (row ∷ rows) =
    (if is_live id row
      then record row { revoked_at = some now; revoked_by = some actor; revoke_reason = some why }
      else row)
    ∷ revoke_rows id now actor why rows

-- The identifier is the table's key, so that one row changes at most.
unfoldable pub revoke_as :
    String → Option String → Decisions → String → String → ℤ → Result RevokeError Decisions
unfolding revoke_rows
revoke_as why replacement d id actor now =
    if any (is_live id) d.overrides
    then ok (record d {
      overrides = revoke_rows id now actor why d.overrides;
      audit =
          d.audit
          ++ (record { event = override_revoked id replacement; actor = actor; occurred_at = now }
              ∷ []);
    })
    else err no_active_override

unfoldable pub revoke_override : Decisions → String → String → ℤ → Result RevokeError Decisions
unfolding revoke_as
revoke_override d id actor now = revoke_as "Revoked from admin UI" none d id actor now

abbrev pub new_row : String → OverrideRequest → String → ℤ → OverrideRow
new_row id request actor now = record {
  id = id;
  project = request.project;
  version = request.version;
  action = request.action;
  reason = request.reason;
  created_at = now;
  created_by = actor;
  expires_at = request.expires_at;
  revoked_at = none;
  revoked_by = none;
  revoke_reason = none;
}

unfoldable pub insert_override :
    String → OverrideRequest → String → ℤ → Option String → Decisions → Decisions
insert_override id request actor now replaces d =
    let row = new_row id request actor now in
    record d {
      overrides = row ∷ d.overrides;
      audit =
          d.audit
          ++ (record { event = override_created id row replaces; actor = actor; occurred_at = now }
              ∷ []);
    }

unfoldable pub create_override :
    Decisions → String → OverrideRequest → String → ℤ → Option String → Result RevokeError Decisions
unfolding insert_override revoke_as
create_override d id request actor now none = ok (insert_override id request actor now none d)
create_override d id request actor now (some previous) =
    revoke_as "Replaced from admin UI" (some id) d previous actor now >>= λ revoked.
    ok (insert_override id request actor now (some previous) revoked)

unfoldable pub store_settings : List (String × Json) → List (String × Json) → List (String × Json)
unfolding upsert
store_settings [] settings = settings
store_settings ((key, value) ∷ updates) settings =
    store_settings updates (upsert str_eq key value settings)

unfoldable pub update_settings : Decisions → List (String × Json) → String → ℤ → Decisions
unfolding store_settings
update_settings d updates actor now = record d {
  settings = store_settings updates d.settings;
  audit =
      d.audit
      ++ (record { event = settings_updated updates; actor = actor; occurred_at = now } ∷ []);
}

unfoldable pub reset_setting : Decisions → String → String → ℤ → Decisions
unfolding delete
reset_setting d key actor now = record d {
  settings = delete str_eq key d.settings;
  audit = d.audit ++ (record { event = settings_reset key; actor = actor; occurred_at = now } ∷ []);
}
