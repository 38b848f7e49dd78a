-- ===== src/Models/Metadata.antt =====
-- Python's dict operations on metadata: the laws of reading after writing, and the conversions `int`
-- and `dict` of a value that was read.
use Prim.Native.Char.{code}
use luis_puentes.Prelude.{
  ℕ, ◌+◌, ◌*◌, ◌-◌, String, ◌≡◌, refl, Bool, true, false, ◌&&◌, ◌||◌, List, [], ◌∷◌, Option, none,
  some, ◌==◌, eq_iff, arith, leb, if◌then◌else◌,
}
use luis_puentes.Result.{Result, ok, raise, value_error, type_error}
use luis_puentes.Models.{
  Json, Items, Fields, bool, num, str, arr, obj, get_field, set_field, pop_field,
}

pub get-set_field :
    (fs : Fields) (k j : String) (v : Json)
    → get_field (set_field fs k v) j ≡ (if k == j then some v else get_field fs j)
unfolding get_field set_field
get-set_field Fields.end k j v = refl
get-set_field (Fields.field i w fs) k j v =
    ground (arith, eq_iff k j, eq_iff i k, eq_iff i j, get-set_field fs k j v)

pub get-pop_field :
    (fs : Fields) (k j : String)
    → get_field (pop_field fs k) j ≡ (if k == j then none else get_field fs j)
unfolding get_field pop_field
get-pop_field Fields.end k j = ground arith
get-pop_field (Fields.field i w fs) k j =
    ground (arith, eq_iff k j, eq_iff i k, eq_iff i j, get-pop_field fs k j)

-- The decimal digits of a text. Signs, padding and `_` between digits are not read.
digits_from : ℕ → String → Result ℕ
digits_from n String.[] = ok n
digits_from n (String.◌∷◌ c s) =
    let d = code c in
    if leb 48 d && leb d 57
    then digits_from (n * 10 + (d - 48)) s
    else raise (value_error "invalid literal for int()")

-- `int(value)`
unfoldable pub int_of : Json → Result ℕ
unfolding digits_from
int_of (num n) = ok n
int_of (bool true) = ok 1
int_of (bool false) = ok 0
int_of (str String.[]) = raise (value_error "invalid literal for int()")
int_of (str (String.◌∷◌ c s)) = digits_from 0 (String.◌∷◌ c s)
int_of value = raise type_error

-- `int(fields.get(key, 0))`
unfoldable pub int_field : Fields → String → Result ℕ
int_field fs key = elim (get_field fs key) [ none ↦ ok 0 | some v ↦ int_of v ]

-- `dict(value)`; a list of pairs, which it takes too, is not read.
unfoldable pub dict_of : Json → Result Fields
dict_of (obj fs) = ok fs
dict_of (arr Items.nil) = ok Fields.end
dict_of (str String.[]) = ok Fields.end
dict_of value = raise type_error

-- `dict(fields.get(key, {}))`
unfoldable pub dict_field : Fields → String → Result Fields
dict_field fs key = elim (get_field fs key) [ none ↦ ok Fields.end | some v ↦ dict_of v ]

-- `list(items)`
unfoldable pub to_list : Items → List Json
to_list Items.nil = []
to_list (Items.cons x xs) = x ∷ to_list xs

unfoldable pub of_list : List Json → Items
of_list [] = Items.nil
of_list (x ∷ xs) = Items.cons x (of_list xs)

chars_of : String → List Json
chars_of String.[] = []
chars_of (String.◌∷◌ c s) = str (String.◌∷◌ c String.[]) ∷ chars_of s

keys_of : Fields → List Json
keys_of Fields.end = []
keys_of (Fields.field k v fs) = str k ∷ keys_of fs

-- `list(value)`
unfoldable pub list_of : Json → Result (List Json)
unfolding to_list chars_of keys_of
list_of (arr items) = ok (to_list items)
list_of (str s) = ok (chars_of s)
list_of (obj fs) = ok (keys_of fs)
list_of value = raise type_error

-- `list(fields.get(key, []))`
unfoldable pub list_field : Fields → String → Result (List Json)
list_field fs key = elim (get_field fs key) [ none ↦ ok [] | some v ↦ list_of v ]

-- A text among the values of a list.
unfoldable pub has_text : List Json → String → Bool
has_text [] text = false
has_text (str s ∷ xs) text = s == text || has_text xs text
has_text (_ ∷ xs) text = has_text xs text

abbrev pub is_text : Option Json → Bool
is_text (some (str s)) = true
is_text _ = false

-- A value that is a text.
abbrev pub text_field : Fields → String → Option String
text_field fs key = elim (get_field fs key) [ some (str s) ↦ some s | _ ↦ none ]
