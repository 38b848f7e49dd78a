-- ===== src/Models/LaneKey/Words.antt =====
-- A normalized lane key is its words with one space between them, and normalizing it again changes
-- nothing.
use Prim.Native.String.{◌++◌}
use text.Mathlib.TextLemmas.{nil-append, cons-append, append-nil, cons-ne-nil}
use luis_puentes.Prelude.{
  String, ◌≡◌, ◌≢◌, ◌↔◌, refl, sym, ap, ◌∙◌, false, List, [], ◌∷◌, ◌==◌, eq_iff, arith, All, subst,
  str_eq-false, if◌then◌else◌, Bool-cases, inl, inr,
}
use luis_puentes.Result.{Result, ok, raise, value_error}
use luis_puentes.Models.LaneKey.{is_space, add_word, split_head, split, join, normalize_lane_key}

-- No white space in it.
abbrev IsSolid : String → Type 0
IsSolid String.[] = Unit
IsSolid (String.◌∷◌ c s) = (is_space c ≡ false) × IsSolid s

abbrev pub IsWord : String → Type 0
IsWord String.[] = ⊥
IsWord (String.◌∷◌ c s) = (is_space c ≡ false) × IsSolid s

add_word-IsWord :
    (w : String) (ws : List String) → IsSolid w → All IsWord ws → All IsWord (add_word w ws)
add_word-IsWord String.[] ws h hs = hs
add_word-IsWord (String.◌∷◌ c w) ws h hs = (h, hs)

split_head-IsSolid : (s : String) → IsSolid (split_head s).0 × All IsWord (split_head s).1
unfolding split_head
split_head-IsSolid String.[] = (tt, tt)
split_head-IsSolid (String.◌∷◌ c s) =
    let h = split_head-IsSolid s in
    elim (Bool-cases (is_space c)) [
      | inl e ↦ rw e (tt, add_word-IsWord _ _ h.0 h.1)
      | inr e ↦ rw e ((e, h.0), h.1)
    ]

split-IsWord : (s : String) → All IsWord (split s)
unfolding split
split-IsWord s = let h = split_head-IsSolid s in add_word-IsWord _ _ h.0 h.1

split_head-append :
    (w s : String) → IsSolid w → split_head (w ++ s) ≡ (w ++ (split_head s).0, (split_head s).1)
unfolding split_head
split_head-append String.[] s h = rw (nil-append s, nil-append (split_head s).0)
split_head-append (String.◌∷◌ c w) s h =
    rw (cons-append c w s, h.0, split_head-append w s h.1, cons-append c w (split_head s).0)

split_head-solid : (w : String) → IsSolid w → split_head w ≡ (w, [])
unfolding split_head
split_head-solid String.[] h = refl
split_head-solid (String.◌∷◌ c w) h = rw (h.0, split_head-solid w h.1)

IsWord→IsSolid : (w : String) → IsWord w → IsSolid w
IsWord→IsSolid String.[] h = tt
IsWord→IsSolid (String.◌∷◌ c w) h = h

add_word-word : (w : String) (ws : List String) → IsWord w → add_word w ws ≡ w ∷ ws
add_word-word String.[] ws h = absurd h
add_word-word (String.◌∷◌ c w) ws h = refl

split_head-space : (s : String) → split_head (String.◌∷◌ " " s) ≡ ("", split s)
unfolding split split_head is_space
split_head-space s = refl

split-append_space : (w s : String) → IsWord w → split (w ++ String.◌∷◌ " " s) ≡ w ∷ split s
split-append_space w s h =
    unfold split in
    rw (split_head-append w (String.◌∷◌ " " s) (IsWord→IsSolid w h))
      (rw (split_head-space s) (rw (append-nil w) (add_word-word w (split s) h)))

-- Splitting the joined words gives the words back.
pub split-join : (ws : List String) → All IsWord ws → split (join ws) ≡ ws
unfolding join
split-join [] h = unfold split split_head in refl
split-join (w ∷ []) h =
    unfold split in rw (split_head-solid w (IsWord→IsSolid w h.0)) (add_word-word w [] h.0)
split-join (w ∷ v ∷ ws) h =
    split-append_space w (join (v ∷ ws)) h.0 ∙ ap (λ l. w ∷ l) (split-join (v ∷ ws) h.1)

append-ne_nil : (w s : String) → IsWord w → w ++ s ≢ ""
append-ne_nil String.[] s h e = absurd h
append-ne_nil (String.◌∷◌ c w) s h e = cons-ne-nil c (w ++ s) (rw (cons-append c w s) at e)

join-blank : (ws : List String) → All IsWord ws → join ws ≡ "" → ws ≡ []
unfolding join
join-blank [] h e = refl
join-blank (w ∷ []) h e = absurd (append-ne_nil w "" h.0 (append-nil w ∙ e))
join-blank (w ∷ v ∷ ws) h e = absurd (append-ne_nil w (String.◌∷◌ " " (join (v ∷ ws))) h.0 e)

abbrev check_blank : String → Result String
check_blank t = if t == "" then raise (value_error "lane_key is empty") else ok t

check_blank-ok : (t n : String) → check_blank t ≡ ok n → (t ≡ n) × (n ≢ "")
check_blank-ok t n h = ground (arith, eq_iff t "", eq_iff n "")

ok-check_blank : (t : String) → t ≢ "" → check_blank t ≡ ok t
ok-check_blank t h = rw (str_eq-false t "" h)

normalize_lane_key_lem : (k : String) → normalize_lane_key k ≡ check_blank (join (split k))
unfolding normalize_lane_key
normalize_lane_key_lem k = refl

-- A lane key that is accepted is its words with one space between them; they are the words of the given
-- text, none of them is empty or holds white space, and the key is not empty.
pub normalize_lane_key-words :
    (k n : String)
    → normalize_lane_key k ≡ ok n
    → (split n ≡ split k) × All IsWord (split n) × (n ≡ join (split n)) × (n ≢ "")
normalize_lane_key-words k n h =
    let (e, ne) = check_blank-ok (join (split k)) n (sym (normalize_lane_key_lem k) ∙ h) in
    let same = ap split (sym e) ∙ split-join (split k) (split-IsWord k) in
    (same, subst (All IsWord) (sym same) (split-IsWord k), sym e ∙ ap join (sym same), ne)

-- Normalizing an accepted lane key again gives the same key.
pub normalize_lane_key_idem :
    (k n : String) → normalize_lane_key k ≡ ok n → normalize_lane_key n ≡ ok n
normalize_lane_key_idem k n h =
    let (e, ne) = check_blank-ok (join (split k)) n (sym (normalize_lane_key_lem k) ∙ h) in
    let again = ap join ((normalize_lane_key-words k n h).0) ∙ e in
    normalize_lane_key_lem n ∙ rw again (ok-check_blank n ne)

-- A lane key is refused exactly if it has no word.
pub normalize_lane_key-refused :
    (k : String) → ((n : String) → normalize_lane_key k ≢ ok n) ↔ (split k ≡ [])
normalize_lane_key-refused k = (
  λ never. join-blank (split k) (split-IsWord k) (blank never),
  λ e n h. (check_blank-ok (join (split k)) n (sym (normalize_lane_key_lem k) ∙ h)).1 (
      sym (check_blank-ok (join (split k)) n (sym (normalize_lane_key_lem k) ∙ h)).0
      ∙ (ap join e ∙ unfold join in refl)),
)
  where
    blank : ((n : String) → normalize_lane_key k ≢ ok n) → join (split k) ≡ ""
    blank never = elim (Bool-cases (join (split k) == "")) [
      | inl e ↦ (eq_iff (join (split k)) "").0 e
      | inr e ↦ absurd (never (join (split k)) (normalize_lane_key_lem k ∙ rw e))
    ]
