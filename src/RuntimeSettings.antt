-- ===== src/RuntimeSettings.antt =====
-- runtime_settings.py: the definitions of the settings that an administrator edits, and the
-- validation of an update. Labels, descriptions and messages are left out; a value is kept as the
-- Boolean or the integer that its stored text stands for.
use Prim.Native.Char.{code}
use Prim.Native.String.{[] as empty_text, ◌∷◌ as text_cons}
use wheelguard.Base.{
  ℕ, ℤ, pos, true, false, ◌&&◌, ◌||◌, String, Option, none, some, List, [], ◌∷◌, nat_eq, leb_ℤ,
  str_eq, if◌then◌else◌,
}
use wheelguard.Base.Decimal.{parse_int}
use wheelguard.Base.Table.{find}
use wheelguard.Json.{Json, Fields, end, field, bool, int, str, obj}

-- What a setting takes: a Boolean, or an integer between two bounds.
pub data SettingDefinition : Type 0 where
  boolean : SettingDefinition
  integer : ℕ → ℕ → SettingDefinition

abbrev pub setting_definitions : List (String × SettingDefinition)
setting_definitions =
    ("minimum_age_days", integer 1 365)
    ∷ ("fallback_minimum_age_hours", integer 1 336)
    ∷ ("allow_missing_upload_time", boolean)
    ∷ ("metadata_ttl_seconds", integer 1 86400)
    ∷ ("maximum_artifact_bytes", integer 1 104857600)
    ∷ ("osv_enabled", boolean)
    ∷ ("advisory_ttl_seconds", integer 60 604800)
    ∷ ("advisory_active_days", integer 1 365)
    ∷ []

-- `text.replace(",", "").replace("_", "")`
unfoldable pub without_separators : String → String
without_separators empty_text = ""
without_separators (text_cons c s) =
    let rest = without_separators s in
    if nat_eq (code c) b',' || nat_eq (code c) b'_' then rest else text_cons c rest

abbrev pub between : ℕ → ℕ → Option ℤ → Option Json
between low high none = none
between low high (some n) = if leb_ℤ (pos low) n && leb_ℤ n (pos high) then some (int n) else none

abbrev pub from_word : String → Option Json
from_word word =
    if str_eq word "true"
    then some (bool true)
    else if str_eq word "false"
    then some (bool false)
    else none

module _ (casefold : String → String) where
  -- `_serialize_value`, `none` for `InvalidSettingsError`. The text of a number that is no integer,
  -- of `None`, of a list and of a dictionary is that of no integer.
  unfoldable pub setting_value : SettingDefinition → Json → Option Json
  unfolding parse_int without_separators
  setting_value boolean (bool b) = some (bool b)
  setting_value boolean (str s) = from_word (casefold s)
  setting_value boolean _ = none
  setting_value (integer low high) (int n) = between low high (some n)
  setting_value (integer low high) (str s) = between low high (parse_int (without_separators s))
  setting_value (integer low high) _ = none

  abbrev pub defined_value : Option SettingDefinition → Json → Option Json
  defined_value none value = none
  defined_value (some definition) value = setting_value definition value

  abbrev pub with_update :
      String → Option Json → Option (List (String × Json)) → Option (List (String × Json))
  with_update key (some value) (some updates) = some ((key, value) ∷ updates)
  with_update key _ _ = none

  unfoldable pub setting_updates : Fields → Option (List (String × Json))
  unfolding setting_value find
  setting_updates end = some []
  setting_updates (field key value fields) =
      with_update key (defined_value (find str_eq key setting_definitions) value)
        (setting_updates fields)

  -- `parse_settings_update`: an unknown key and an invalid value are refused alike.
  unfoldable pub parse_settings_update : Json → Option (List (String × Json))
  unfolding setting_updates
  parse_settings_update (obj end) = none
  parse_settings_update (obj (field key value fields)) = setting_updates (field key value fields)
  parse_settings_update _ = none
