-- ===== src/Artifacts/Names.antt =====
-- Which file names `_safe_filename` accepts.
use Prim.Native.Char.{code}
use Prim.Native.String.{◌∷◌}
use wheelguard.Base.{
  ℕ, ◌≡◌, ◌≢◌, refl, subst, Bool, true, false, not, String, List, ◌↔◌, inl, inr, Bool-cases,
  and_true, not-true, nat_eq, is_empty, str_eq, eq_iff, all_chars, split_first, split, All,
}
use wheelguard.Artifacts.{last_part, safe_filename}

-- No path separator.
abbrev pub not_slash : ℕ → Bool
not_slash c = not (nat_eq c b'/')

abbrev pub NoSlash : String → Type 0
NoSlash s = all_chars not_slash s ≡ true

split_first-NoSlash :
    (s : String) → NoSlash (split_first b'/' s).0 × All NoSlash (split_first b'/' s).1
unfolding split_first all_chars
split_first-NoSlash String.[] = (refl, tt)
split_first-NoSlash (c ∷ s) = elim (Bool-cases (nat_eq (code c) b'/')) [
  | inl h ↦ rw h (refl, split_first-NoSlash s)
  | inr h ↦ rw h (rw (h, (split_first-NoSlash s).0), (split_first-NoSlash s).1)
]

last_part-NoSlash : (parts : List String) → All NoSlash parts → NoSlash (last_part parts)
unfolding last_part all_chars
last_part-NoSlash List.[] h = refl
last_part-NoSlash (List.◌∷◌ part parts) h = elim (Bool-cases (not (is_empty (last_part parts)))) [
  | inl k ↦ rw k (last_part-NoSlash parts h.1)
  | inr k ↦ elim (Bool-cases (str_eq part ".")) [ inl d ↦ rw (k, d) | inr d ↦ rw (k, d) h.0 ]
]

-- A text without a separator is its own first part.
split_first_whole : (s : String) → NoSlash s → split_first b'/' s ≡ (s, List.[])
unfolding split_first all_chars
split_first_whole String.[] h = refl
split_first_whole (c ∷ s) h =
    let (a, b) = and_true (not_slash (code c)) (all_chars not_slash s) h in
    rw (not-true (nat_eq (code c) b'/') a, split_first_whole s b)

ne_of_false : {s t : String} → str_eq s t ≡ false → s ≢ t
ne_of_false {s} {t} h e = cc (h, (eq_iff s t).1 e)

false_of_ne : {s t : String} → s ≢ t → str_eq s t ≡ false
false_of_ne {s} {t} n = elim (Bool-cases (str_eq s t)) [
  | inl h ↦ absurd (n ((eq_iff s t).0 h))
  | inr h ↦ h
]

dot_has_no_name : last_part (split b'/' ".") ≡ "." → ⊥
unfolding last_part split
dot_has_no_name q = cc

accepted : (s : String) → safe_filename s ≡ true → NoSlash s × (s ≢ "") × (s ≢ ".")
unfolding safe_filename split
accepted s h =
    let (n, e) = and_true (not (is_empty s)) _ h in
    let q : last_part (split b'/' s) ≡ s = (eq_iff (last_part (split b'/' s)) s).0 e in
    let parts = split_first-NoSlash s in
    (
      subst NoSlash q (last_part-NoSlash (split b'/' s) parts),
      ne_of_false (not-true (is_empty s) n),
      λ e. dot_has_no_name (subst (λ t. last_part (split b'/' t) ≡ t) e q),
    )

rejected_or_not : (s : String) → NoSlash s → s ≢ "" → s ≢ "." → safe_filename s ≡ true
unfolding safe_filename split last_part
rejected_or_not s h e d =
    rw (false_of_ne e, split_first_whole s h, false_of_ne d, (eq_iff s s).1 refl)

-- A file name is accepted exactly if it has no "/" and is neither empty nor ".".
pub safe_filename_iff : (s : String) → (safe_filename s ≡ true) ↔ (NoSlash s × (s ≢ "") × (s ≢ "."))
safe_filename_iff s = (accepted s, λ h. rejected_or_not s h.0 h.1 h.2)
