-- ===== src/Coordinator/Answers/Fence.antt =====
-- `_strip_code_fence` of orchestrator/coordinator.py: the text between the fences of a code block, if the
-- stripped text is one block, and otherwise the text itself.
use Prim.Native.Char.{code}
use luis_puentes.Prelude.{String, ◌≡◌, refl, Option, none, some, eqb, if◌then◌else◌}
use luis_puentes.Models.LaneKey.{is_space}

pub reverse_onto : String → String → String
reverse_onto String.[] t = t
reverse_onto (String.◌∷◌ c s) t = reverse_onto s (String.◌∷◌ c t)

abbrev reverse : String → String
reverse s = reverse_onto s ""

-- `text.lstrip()`
pub drop_spaces : String → String
drop_spaces String.[] = ""
drop_spaces (String.◌∷◌ c s) =
    let rest = drop_spaces s in if is_space c then rest else String.◌∷◌ c s

-- `text.strip()`
abbrev pub strip : String → String
strip s = reverse (drop_spaces (reverse (drop_spaces s)))

-- The text after a prefix, if it has the prefix.
pub drop_prefix : String → String → Option String
drop_prefix String.[] s = some s
drop_prefix (String.◌∷◌ c p) String.[] = none
drop_prefix (String.◌∷◌ c p) (String.◌∷◌ d s) =
    let rest = drop_prefix p s in if eqb (code c) (code d) then rest else none

abbrev pub drop_suffix : String → String → Option String
drop_suffix p s = elim (drop_prefix (reverse p) (reverse s)) [
  | none ↦ none
  | some t ↦ some (reverse t)
]

-- `[^\S\n]*\n`: the text after a line of white space.
pub drop_blank_line : String → Option String
drop_blank_line String.[] = none
drop_blank_line (String.◌∷◌ c s) =
    let rest = drop_blank_line s in
    if eqb (code c) 10 then some s else if is_space c then rest else none

-- `(?:json)?`
abbrev pub drop_language : String → String
drop_language s = elim (drop_prefix "json" s) [ none ↦ s | some t ↦ t ]

-- What the expression matches below the opening fence.
abbrev pub block_body : String → Option String
block_body s = elim (drop_blank_line (drop_language s)) [
  | none ↦ none
  | some t ↦ drop_suffix "\n```" t
]

unfoldable pub strip_code_fence : String → String
unfolding drop_spaces drop_prefix drop_blank_line reverse_onto is_space
strip_code_fence text = elim (drop_prefix "```" (strip text)) [
  | none ↦ text
  | some t ↦ elim (block_body t) [ none ↦ text | some body ↦ body ]
]

strip_fenced : strip_code_fence " ```json \n{\"a\": 1}\n``` " ≡ "{\"a\": 1}"
unfolding strip_code_fence
strip_fenced = refl

strip_plain : strip_code_fence "```json {}```" ≡ "```json {}```"
unfolding strip_code_fence
strip_plain = refl
