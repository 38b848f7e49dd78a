-- ===== src/Recalc/Chain.antt =====
-- The backends that a chain consults: src/xllib/recalc/api.py of excel-library.
use luis_puentes.Prelude.{
  ℕ, suc, ◌≡◌, refl, sym, ap, String, Bool, true, false, Option, none, some, List, [], ◌∷◌,
  if◌then◌else◌, map,
}
use luis_puentes.Recalc.{
  Raised, Backend, Outcome, BackendAttempt, Python, Turns, stage_copy, turn, run_chain,
}

abbrev pub succeeds : Bool → String × Option Raised → Bool
succeeds false r = false
succeeds true (result, none) = true
succeeds true (result, some e) = false

-- Whether a backend is available and recalculates a file with these bytes.
abbrev pub works : String → Backend → Bool
works bytes b = succeeds b.available.available (b.recalculate bytes)

abbrev pub is_success : Outcome → Bool
is_success Outcome.succeeded = true
is_success _ = false

-- The first backend of the chain that works, with those before it.
abbrev pub first_working : String → List Backend → List Backend × Option Backend
first_working bytes [] = ([], none)
first_working bytes (b ∷ bs) =
    let (before, found) = first_working bytes bs in
    if works bytes b then ([], some b) else (b ∷ before, found)

-- The names of the backends that are consulted, each with whether it succeeded.
abbrev pub consulted : List Backend × Option Backend → List (String × Bool)
consulted ([], none) = []
consulted ([], some b) = (b.name, true) ∷ []
consulted (b ∷ bs, found) = (b.name, false) ∷ consulted (bs, found)

abbrev pub result_of : String → Option Backend → Option String
result_of bytes none = none
result_of bytes (some b) = some (b.recalculate bytes).0

abbrev pub copied : Option (String × String) → Option String
copied none = none
copied (some (path, result)) = some result

abbrev pub recorded : List BackendAttempt → List (String × Bool)
recorded = map (λ (a : BackendAttempt). (a.backend, is_success a.outcome))

module _ (py : Python) (source bytes workspace : String) where
  abbrev Agrees : Turns → List Backend × Option Backend → Type 0
  Agrees t p = (recorded t.attempts ≡ consulted p) × (copied t.copy ≡ result_of bytes p.1)

  turn-Agrees :
      (b : Backend) (path : String) (t : Turns) (p : List Backend × Option Backend)
      → Agrees t p
      → (available : Bool) (r : String × Option Raised) → b.recalculate bytes ≡ r
      → Agrees
          (turn py source bytes workspace b path available r t)
          (if succeeds available r then ([], some b) else (b ∷ p.0, p.1))
  turn-Agrees b path t p (r, c) false x e = (ap (λ rs. (b.name, false) ∷ rs) r, c)
  turn-Agrees b path t p (r, c) true (result, some x) e = (ap (λ rs. (b.name, false) ∷ rs) r, c)
  turn-Agrees b path t p (r, c) true (result, none) e =
      (refl, ap (λ (x : String × Option Raised). some x.0) (sym e))

  -- The chain ends at the first backend that is available and does not raise, with what that one makes of the
  -- bytes of the source, whatever those before it made of their copies; the attempts are those of the backends
  -- before it, each without success, and its own. A chain of which no backend works gives no copy.
  pub run_chain-first :
      (chain : List Backend) (index : ℕ)
      → (recorded (run_chain py source bytes workspace index chain).attempts
          ≡ consulted (first_working bytes chain))
        × (copied (run_chain py source bytes workspace index chain).copy
            ≡ result_of bytes (first_working bytes chain).1)
  unfolding run_chain
  run_chain-first [] index = (refl, refl)
  run_chain-first (b ∷ bs) index =
      turn-Agrees b (stage_copy py source bytes workspace index b.name)
        (run_chain py source bytes workspace (suc index) bs) (first_working bytes bs)
        (run_chain-first bs (suc index)) b.available.available (b.recalculate bytes) refl
