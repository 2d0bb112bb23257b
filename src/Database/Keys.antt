-- ===== src/Database/Keys.antt =====
-- The keys of two columns.
use wheelguard.Base.{◌≡◌, refl, subst, ◌↔◌, true, String, str_eq, eq_iff, and_true}
use wheelguard.Database.{pair_eq}

pub pair_eq_refl : (p : String × String) → pair_eq p p ≡ true
pair_eq_refl (a, b) = rw ((eq_iff a a).1 refl, (eq_iff b b).1 refl)

pub pair_eq_iff : (p q : String × String) → (pair_eq p q ≡ true) ↔ (p ≡ q)
pair_eq_iff (a, b) (c, d) = (
  λ h. let (l, r) = and_true (str_eq a c) (str_eq b d) h in rw ((eq_iff a c).0 l, (eq_iff b d).0 r),
  λ e. subst (λ q. pair_eq (a, b) q ≡ true) e (pair_eq_refl (a, b)),
)
