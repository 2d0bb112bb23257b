-- ===== src/Json/Dict.antt =====
-- `d.get(key)` and `d[key] = value` on JSON dictionaries, and the lists they hold.
use wheelguard.Base.{
  ◌≡◌, refl, sym, ◌∙◌, String, List, [], ◌∷◌, Option, none, some, arith, str_eq, eq_iff,
  if◌then◌else◌, ap,
}
use wheelguard.Json.{Json, Items, Fields, null, arr, end, field, nil, cons, elements, items}

unfoldable pub get? : String → Fields → Option Json
get? k end = none
get? k (field j v fs) = if str_eq j k then some v else get? k fs

-- `d.get(k)`, which is `None` when the key is missing
unfoldable pub get : String → Fields → Json
get k end = null
get k (field j v fs) = if str_eq j k then v else get k fs

-- `d[k] = v`: an existing key keeps its place, a new one goes last
unfoldable pub put : String → Json → Fields → Fields
put k v end = field k v end
put k v (field j w fs) = if str_eq j k then field j v fs else field j w (put k v fs)

-- `files = d.get(k, [])`, replaced by `[]` when it is no list
abbrev pub list_of : Option Json → List Json
list_of (some (arr xs)) = elements xs
list_of _ = []

pub elements-items : (xs : List Json) → elements (items xs) ≡ xs
elements-items [] = refl
elements-items (x ∷ xs) = ap (◌∷◌ x) (elements-items xs)

pub items-elements : (xs : Items) → items (elements xs) ≡ xs
items-elements nil = refl
items-elements (cons x xs) = ap (cons x) (items-elements xs)

pub get?-put :
    (k j : String) (v : Json) (fs : Fields)
    → get? j (put k v fs) ≡ (if str_eq k j then some v else get? j fs)
unfolding get? put
get?-put k j v end = refl
get?-put k j v (field i w fs) =
    ground (arith, eq_iff k j, eq_iff i k, eq_iff i j, get?-put k j v fs)

-- A key that is there with a value is put back without a change.
pub put-get? : (k : String) (v : Json) (fs : Fields) → get? k fs ≡ some v → put k v fs ≡ fs
unfolding get? put
put-get? k v end h = cc
put-get? k v (field j w fs) h = ground (arith, put-get? k v fs)

pub put-put : (k : String) (v w : Json) (fs : Fields) → put k w (put k v fs) ≡ put k w fs
unfolding put
put-put k v w end = ground (arith, eq_iff k k)
put-put k v w (field j u fs) = ground (arith, put-put k v w fs)

abbrev pub or_null : Option Json → Json
or_null none = null
or_null (some v) = v

pub get-get? : (k : String) (fs : Fields) → get k fs ≡ or_null (get? k fs)
unfolding get get?
get-get? k end = refl
get-get? k (field j v fs) = ground (arith, get-get? k fs)

-- `d.get(k)` sees only `k`.
pub get_of_get? : (k : String) (fs gs : Fields) → get? k fs ≡ get? k gs → get k fs ≡ get k gs
get_of_get? k fs gs h = get-get? k fs ∙ ap or_null h ∙ sym (get-get? k gs)
