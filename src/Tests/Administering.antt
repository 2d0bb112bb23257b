-- ===== src/Tests/Administering.antt =====
-- Overrides of one version: created, replaced and revoked.
use wheelguard.Administration.{
  OverrideRow, Decisions, is_active, first_of_each, active_overrides, revoke_rows, revoke_as,
  revoke_override, new_row, insert_override, create_override, override_revoked,
}
use wheelguard.Administration.Changes.{revoke_override_lem, create_override-wins}
use wheelguard.Administration.Newest.{IsInForce, active_overrides-IsInForce}
use wheelguard.Base.{
  is_some, true, pos, ◌≡◌, refl, inl, inr, false, none, some, [], ◌∷◌, Has, leb_ℤ, subst,
}
use wheelguard.Base.Sort.{sort, insert}
use wheelguard.Overrides.{OverrideRequest}
use wheelguard.Policy.{lookup}

abbrev pub block : OverrideRequest
block = record { project = "a"; version = "1"; action = "block"; reason = "r"; expires_at = none }

abbrev allow : OverrideRequest
allow = record block { action = "allow"; expires_at = some (pos 100) }

abbrev pub blocking : Decisions
blocking = record { overrides = new_row "i" block "admin" (pos 5) ∷ []; settings = []; audit = [] }

abbrev allowing : Decisions
allowing = insert_override "j" allow "admin" (pos 6) none blocking

active_overrides-IsInForce_example :
    IsInForce blocking "a" (pos 9) "1" (lookup "1" (active_overrides blocking "a" (pos 9)))
active_overrides-IsInForce_example = active_overrides-IsInForce blocking "a" (pos 9) "1"

pub blocking_is_active : lookup "1" (active_overrides blocking "a" (pos 9)) ≡ some "block"
unfolding lookup active_overrides first_of_each sort insert is_active
blocking_is_active = refl

create_override-wins_example : lookup "1" (active_overrides allowing "a" (pos 9)) ≡ some "allow"
unfolding create_override
create_override-wins_example =
    create_override-wins blocking allowing "j" "admin" allow (pos 6) (pos 9) none
      (λ row m p v. later row m) refl refl
  where
    later : (row : OverrideRow) → Has row blocking.overrides → leb_ℤ (pos 6) row.created_at ≡ false
    later row (inl e) = subst (λ r. leb_ℤ (pos 6) r.created_at ≡ false) e refl
    later row (inr m) = absurd m

abbrev revoked : Decisions
revoked = record {
  overrides = revoke_rows "i" (pos 7) "admin" "Revoked from admin UI" blocking.overrides;
  settings = [];
  audit = record { event = override_revoked "i" none; actor = "admin"; occurred_at = pos 7 } ∷ [];
}

revoke_override_lem_example :
    ((row : OverrideRow) × Has row blocking.overrides
      × (row.id ≡ "i")
      × (is_some row.revoked_at ≡ false))
    × ((row : OverrideRow)
        → Has row revoked.overrides
        → row.id ≡ "i"
        → is_some row.revoked_at ≡ true)
    × ((row : OverrideRow)
        → Has row blocking.overrides
        → ¬ (row.id ≡ "i")
        → Has row revoked.overrides)
    × ((row : OverrideRow)
        → Has row blocking.overrides
        → is_some row.revoked_at ≡ true
        → Has row revoked.overrides)
unfolding revoke_override revoke_as
revoke_override_lem_example = revoke_override_lem blocking revoked "i" "admin" (pos 7) refl
