-- ===== src/Recalc/Slug.antt =====
-- A name that is safe as that of a directory: _slug of src/xllib/recalc/api.py of excel-library.
use Prim.Native.Char.{Char, code}
use luis_puentes.Prelude.{
  ℕ, String, Bool, [], ◌∷◌, ◌==◌, ◌&&◌, ◌||◌, if◌then◌else◌, concat, eqb, leb,
}

abbrev pub in_range : ℕ → ℕ → Char → Bool
in_range low high c = leb low (code c) && leb (code c) high

-- `.`, `_` and `-`
abbrev pub is_mark : Char → Bool
is_mark c = eqb (code c) 46 || eqb (code c) 95 || eqb (code c) 45

abbrev pub is_safe : Char → Bool
is_safe c = in_range 97 122 c || in_range 65 90 c || in_range 48 57 c || is_mark c

abbrev pub cleaned : String → String
cleaned String.[] = ""
cleaned (String.◌∷◌ c s) =
    let rest = cleaned s in if is_safe c then String.◌∷◌ c rest else concat ("_" ∷ rest ∷ [])

-- `text.strip("._-")`
abbrev pub strip_left : String → String
strip_left String.[] = ""
strip_left (String.◌∷◌ c s) = let rest = strip_left s in if is_mark c then rest else String.◌∷◌ c s

abbrev pub strip_right : String → String
strip_right String.[] = ""
strip_right (String.◌∷◌ c s) =
    let rest = strip_right s in if rest == "" && is_mark c then "" else String.◌∷◌ c rest

unfoldable pub slug : String → String
slug backend =
    let s = strip_right (strip_left (cleaned backend)) in if s == "" then "backend" else s
