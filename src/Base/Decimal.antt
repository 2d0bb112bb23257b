-- ===== src/Base/Decimal.antt =====
-- `int(text)`: blanks around, a sign, ASCII digits with single underscores between them. (Python
-- takes the decimal digits of other scripts too; these are left out.)
use Prim.Native.Nat.{ℕ, suc, zero, ◌+◌, ◌*◌, ◌-◌}
use Prim.Native.Char.{code}
use Prim.Native.String.{String, [], ◌∷◌}
use mathlib.Core.Bool.{Bool, true, false, ◌&&◌}
use mathlib.Core.Option.{Option, none, some}
use wheelguard.Base.Int.{ℤ, pos, negsuc}
use wheelguard.Base.Tests.{leb, nat_eq, if◌then◌else◌}
use wheelguard.Base.Text.{strip}

abbrev pub is_digit : ℕ → Bool
is_digit c = leb b'0' c && leb c b'9'

-- The digits from here on; `after_digit` tells whether one stands before.
unfoldable pub digits : ℕ → Bool → String → Option ℕ
digits n after_digit [] = if after_digit then some n else none
digits n after_digit (c ∷ s) =
    let longer = digits (n * 10 + (code c - 48)) true s in
    let skipped = digits n false s in
    if is_digit (code c)
    then longer
    else if nat_eq (code c) b'_' && after_digit
    then skipped
    else none

abbrev pub negated : Option ℕ → Option ℤ
negated none = none
negated (some zero) = some (pos 0)
negated (some (suc n)) = some (negsuc n)

abbrev pub as_integer : Option ℕ → Option ℤ
as_integer none = none
as_integer (some n) = some (pos n)

unfoldable pub signed : String → Option ℤ
unfolding digits
signed [] = none
signed (c ∷ s) =
    if nat_eq (code c) b'-'
    then negated (digits 0 false s)
    else if nat_eq (code c) b'+'
    then as_integer (digits 0 false s)
    else as_integer (digits 0 false (c ∷ s))

unfoldable pub parse_int : String → Option ℤ
unfolding signed strip
parse_int s = signed (strip s)
