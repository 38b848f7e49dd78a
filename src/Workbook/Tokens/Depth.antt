-- ===== src/Workbook/Tokens/Depth.antt =====
-- What the walk over a formula measures.
use luis_puentes.Prelude.{
  ℕ, suc, ◌+◌, ◌≤◌, String, ◌≡◌, refl, Bool, true, false, Option, some, List, [], ◌∷◌, ◌++◌, All,
  length, count, arith, Bool-cases, Option-cases, inl, inr,
}
use luis_puentes.Result.{ok}
use luis_puentes.Workbook.{Library, Token, TokenKind, Workbook}
use luis_puentes.Workbook.Tokens.{
  NumericLiteral, TokenWalk, Frame, Walk, maximum, pop, next_argument, literal_at, read_token,
  walk_tokens, start_walk, starts_equal, finish_walk, walk_formula,
}

abbrev pub opens : Token → Bool
opens t = elim t.kind [ TokenKind.function_open ↦ true | _ ↦ false ]

-- Every literal stands as deep as the walk has been, at most.
abbrev pub AreWithin : ℕ → List NumericLiteral → Type 0
AreWithin n literals = All (λ l. l.function_depth ≤ n) literals

AreWithin-mono : (m n : ℕ) (ls : List NumericLiteral) → m ≤ n → AreWithin m ls → AreWithin n ls
AreWithin-mono m n [] h w = tt
AreWithin-mono m n (l ∷ ls) h (x, w) = (omega arith, AreWithin-mono m n ls h w)

AreWithin-append :
    (n : ℕ) (ls : List NumericLiteral) (l : NumericLiteral)
    → AreWithin n ls
    → l.function_depth ≤ n
    → AreWithin n (ls ++ l ∷ [])
AreWithin-append n [] l w h = (h, tt)
AreWithin-append n (k ∷ ls) l (x, w) h = (x, AreWithin-append n ls l w h)

-- The open functions are no more than the depth, which is no more than the functions so far.
abbrev IsMeasured : Walk → Type 0
IsMeasured w = (length w.frames ≤ w.depth) × (w.depth ≤ w.count) × AreWithin w.depth w.literals

length-pop : (fs : List Frame) → length (pop fs) ≤ length fs
length-pop [] = omega arith
length-pop (f ∷ fs) = omega arith

length-next_argument : (fs : List Frame) → length (next_argument fs) ≡ length fs
length-next_argument [] = refl
length-next_argument (f ∷ fs) = refl

module _ (lib : Library) (wb : Option Workbook) (index : Option ℕ) where
  read_token-IsMeasured :
      (k : TokenKind) (t : Token) (w : Walk)
      → IsMeasured w
      → IsMeasured (read_token lib wb index k t w)
  read_token-IsMeasured TokenKind.function_open t w (a, b, c) = (
    ground arith,
    ground arith,
    AreWithin-mono w.depth (maximum w.depth (suc (length w.frames))) w.literals (ground arith) c,
  )
  read_token-IsMeasured TokenKind.function_close t w (a, b, c) =
      (omega (arith, length-pop w.frames), b, c)
  read_token-IsMeasured TokenKind.argument_separator t w (a, b, c) =
      (rw (length-next_argument w.frames) a, b, c)
  read_token-IsMeasured TokenKind.number_operand t w (a, b, c) =
      (a, b, AreWithin-append w.depth w.literals (literal_at lib wb index t w) c a)
  read_token-IsMeasured _ t w h = h

  walk_tokens-IsMeasured :
      (ts : List Token) (w : Walk) → IsMeasured w → IsMeasured (walk_tokens lib wb index ts w)
  unfolding walk_tokens
  walk_tokens-IsMeasured [] w h = h
  walk_tokens-IsMeasured (t ∷ ts) w h =
      walk_tokens-IsMeasured ts (record (read_token lib wb index t.kind t w) { previous = some t })
        (read_token-IsMeasured t.kind t w h)

  read_token-count :
      (t : Token) (k : TokenKind) (w : Walk)
      → t.kind ≡ k
      → (read_token lib wb index k t w).count ≡ count opens (t ∷ []) + w.count
  read_token-count t TokenKind.function_open w e = rw e (omega arith)
  read_token-count t TokenKind.function_close w e = rw e (omega arith)
  read_token-count t TokenKind.argument_separator w e = rw e (omega arith)
  read_token-count t TokenKind.number_operand w e = rw e (omega arith)
  read_token-count t TokenKind.range_operand w e = rw e (omega arith)
  read_token-count t TokenKind.other_operand w e = rw e (omega arith)
  read_token-count t TokenKind.prefix_operator w e = rw e (omega arith)
  read_token-count t TokenKind.other w e = rw e (omega arith)

  walk_tokens-count :
      (ts : List Token) (w : Walk)
      → (walk_tokens lib wb index ts w).count ≡ count opens ts + w.count
  unfolding walk_tokens
  walk_tokens-count [] w = omega arith
  walk_tokens-count (t ∷ ts) w = ground (
    arith,
    walk_tokens-count ts (record (read_token lib wb index t.kind t w) { previous = some t }),
    read_token-count t t.kind w refl,
  )

-- What walk_formula makes of a formula that it walks over.
walk_formula-walked :
    (lib : Library) (wb : Option Workbook) (index : Option ℕ) (formula : String) (walk : TokenWalk)
    → walk_formula lib wb index formula ≡ ok walk
    → finish_walk lib wb index formula
        (walk_tokens lib wb index (lib.tokens formula) (start_walk lib wb index))
      ≡ walk
unfolding walk_formula
walk_formula-walked lib wb index formula walk h = elim (Bool-cases (starts_equal formula)) [
  | inr e ↦ absurd (cc (rw e at h))
  | inl e ↦ elim (Option-cases (lib.tokenize_error formula)) [
    | inl none_raised ↦ cc (rw (e, none_raised) at h)
    | inr (message, raised) ↦ absurd (cc (rw (e, raised) at h))
  ]
]

-- The walk over a formula counts its functions; the depth that it measures is no more than that, and no
-- numeric literal stands deeper.
pub walk_formula-depth :
    (lib : Library) (wb : Option Workbook) (index : Option ℕ) (formula : String) (walk : TokenWalk)
    → walk_formula lib wb index formula ≡ ok walk
    → (walk.function_count ≡ count opens (lib.tokens formula))
      × (walk.max_function_depth ≤ walk.function_count)
      × All (λ l. l.function_depth ≤ walk.max_function_depth) walk.numeric_literals
walk_formula-depth lib wb index formula walk h =
    let measured =
      walk_tokens-IsMeasured lib wb index (lib.tokens formula) (start_walk lib wb index)
        (omega arith, omega arith, tt) in
    rw (← walk_formula-walked lib wb index formula walk h) (
      ground (arith, walk_tokens-count lib wb index (lib.tokens formula) (start_walk lib wb index)),
      measured.1,
      measured.2,
    )
