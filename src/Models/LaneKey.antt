-- ===== src/Models/LaneKey.antt =====
-- `normalize_lane_key` of orchestrator/models.py: `" ".join(str(lane_key).split())`, with Python's
-- white space.
pub mod Words
use Prim.Native.Char.{Char, code}
use Prim.Native.String.{◌++◌}
use luis_puentes.Prelude.{
  ℕ, String, ◌≡◌, refl, Bool, ◌&&◌, ◌||◌, List, [], ◌∷◌, ◌==◌, leb, eqb, if◌then◌else◌,
}
use luis_puentes.Result.{Result, ok, raise, value_error}

-- `str.isspace` of one character
unfoldable pub is_space : Char → Bool
is_space c =
    let n = code c in
    (leb 9 n && leb n 13)
    || (leb 28 n && leb n 32)
    || eqb n 0x85
    || eqb n 0xa0
    || eqb n 0x1680
    || (leb 0x2000 n && leb n 0x200a)
    || eqb n 0x2028
    || eqb n 0x2029
    || eqb n 0x202f
    || eqb n 0x205f
    || eqb n 0x3000

abbrev pub add_word : String → List String → List String
add_word String.[] ws = ws
add_word (String.◌∷◌ c w) ws = (String.◌∷◌ c w) ∷ ws

-- The word that the text begins with, which may be empty, and the words after it.
pub split_head : String → String × List String
split_head String.[] = ("", [])
split_head (String.◌∷◌ c s) =
    let (w, ws) = split_head s in if is_space c then ("", add_word w ws) else (String.◌∷◌ c w, ws)

-- `text.split()`
pub split : String → List String
split s = let (w, ws) = split_head s in add_word w ws

-- `" ".join(words)`
pub join : List String → String
join [] = ""
join (w ∷ []) = w
join (w ∷ v ∷ ws) = w ++ String.◌∷◌ " " (join (v ∷ ws))

unfoldable pub normalize_lane_key : String → Result String
unfolding split split_head join is_space
normalize_lane_key lane_key =
    let normalized = join (split lane_key) in
    if normalized == "" then raise (value_error "lane_key is empty") else ok normalized

normalize_spaces : normalize_lane_key "  ops_lane \t two  " ≡ ok "ops_lane two"
unfolding normalize_lane_key
normalize_spaces = refl

normalize_blank : normalize_lane_key " \n " ≡ raise (value_error "lane_key is empty")
unfolding normalize_lane_key
normalize_blank = refl
