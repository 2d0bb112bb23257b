-- ===== src/Base/Text.antt =====
-- Python's `str` as the native text: the operations that the sources call on it.
use Prim.Native.Nat.{ℕ, suc}
use Prim.Native.Char.{code}
use Prim.Native.String.{String, [], ◌∷◌, ◌++◌}
use mathlib.Core.Bool.{Bool, true, false, ◌||◌, ◌&&◌}
use mathlib.Core.List.{List}
use text.Mathlib.Text.{◌==◌}
use wheelguard.Base.Tests.{nat_eq, leb, if◌then◌else◌}

-- `s.endswith(t)`
unfoldable pub ends_with : String → String → Bool
ends_with [] t = "" == t
ends_with (c ∷ s) t = ((c ∷ s) == t) || ends_with s t

-- `s.replace("Z", "+00:00")`
unfoldable pub replace_z : String → String
replace_z [] = ""
replace_z (c ∷ s) =
    let rest = replace_z s in if nat_eq (code c) b'Z' then "+00:00" ++ rest else c ∷ rest

-- `", ".join(parts)`
unfoldable pub join : String → List String → String
join sep List.[] = ""
join sep (List.◌∷◌ x xs) = elim xs [ List.[] ↦ x | List.◌∷◌ y ys ↦ x ++ (sep ++ join sep xs) ]

abbrev pub str_eq : String → String → Bool
str_eq = ◌==◌

-- `bool(s)`
abbrev pub is_empty : String → Bool
is_empty s = s == ""

-- `len(s)`, and whether every character passes a test on its code point
unfoldable pub text_length : String → ℕ
text_length [] = 0
text_length (c ∷ s) = suc (text_length s)

unfoldable pub all_chars : (ℕ → Bool) → String → Bool
all_chars p [] = true
all_chars p (c ∷ s) = p (code c) && all_chars p s

-- `s.split(sep)`, for a separator of one character; the first part is returned apart
unfoldable pub split_first : ℕ → String → String × List String
split_first sep [] = ("", List.[])
split_first sep (c ∷ s) =
    let (part, parts) = split_first sep s in
    if nat_eq (code c) sep then ("", List.◌∷◌ part parts) else (c ∷ part, parts)

unfoldable pub split : ℕ → String → List String
unfolding split_first
split sep s = let (part, parts) = split_first sep s in List.◌∷◌ part parts

-- `str.isspace` of one character
abbrev pub is_space : ℕ → Bool
is_space c =
    (leb 9 c && leb c 13)
    || ((leb 28 c && leb c 32)
        || (nat_eq c 133
            || (nat_eq c 160
                || (nat_eq c 5760
                    || ((leb 8192 c && leb c 8202)
                        || (nat_eq c 8232
                            || (nat_eq c 8233
                                || (nat_eq c 8239 || (nat_eq c 8287 || nat_eq c 12288)))))))))

unfoldable pub strip_left : String → String
strip_left [] = ""
strip_left (c ∷ s) = let rest = strip_left s in if is_space (code c) then rest else c ∷ s

unfoldable pub strip_right : String → String
strip_right [] = ""
strip_right (c ∷ s) =
    let rest = strip_right s in if is_empty rest && is_space (code c) then "" else c ∷ rest

-- `text.strip()`
unfoldable pub strip : String → String
unfolding strip_left strip_right
strip s = strip_right (strip_left s)

-- The code points of a text, which are the bytes of an ASCII text.
unfoldable pub codes : String → List ℕ
codes [] = List.[]
codes (c ∷ s) = List.◌∷◌ (code c) (codes s)

-- `text.rstrip("/")`
unfoldable pub rstrip_slash : String → String
rstrip_slash [] = []
rstrip_slash (c ∷ s) =
    let rest = rstrip_slash s in if is_empty rest && nat_eq (code c) b'/' then [] else c ∷ rest

-- `s.startswith(t)`
unfoldable pub starts_with : String → String → Bool
starts_with s [] = true
starts_with [] (d ∷ t) = false
starts_with (c ∷ s) (d ∷ t) = nat_eq (code c) (code d) && starts_with s t
