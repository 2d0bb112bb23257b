-- ===== src/Application/Audited.antt =====
-- What a write of the administration leaves.
use wheelguard.Administration.{Decisions, AuditRow}
use wheelguard.Base.{◌≡◌, ◌⊎◌, String, List, ◌∷◌, ◌++◌, All}
use wheelguard.Json.{Json}
use wheelguard.Platform.{Platform}

-- The log has grown by rows of the actor, one at least.
pub record IsLogged (actor : String) (d e : Decisions) : Type 0 where
  pub first : AuditRow
  pub more : List AuditRow
  pub longer : e.audit ≡ d.audit ++ (first ∷ more)
  pub by_actor : (first.actor ≡ actor) × All (λ row. row.actor ≡ actor) more

-- A write that succeeds is logged, one that fails changes nothing.
abbrev Left : String → Decisions → Decisions → Type 0
Left actor d e = (e ≡ d) ⊎ IsLogged actor d e
