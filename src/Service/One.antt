-- ===== src/Service/One.antt =====
-- One service at most.
use luis_puentes.Prelude.{
  ℕ, suc, ◌≤◌, String, ◌≡◌, ◌⊎◌, refl, sym, subst, ap, Bool, true, false, List, [], ◌∷◌, ◌==◌, All,
  length, arith, Bool-cases, inl, inr,
}
use luis_puentes.Result.{Failure, Result, ok, raise, attribute_error}
use luis_puentes.Service.{
  LockFile, absent, unreadable, undecodable, no_object, object, written, Acquisition, acquired,
  already_running, failed, pid_number, pid_of, judge_file, acquire, World, ServiceCall, acquiring,
  releasing, release, after_call, after_calls,
}

-- A file that names no living process, or none at all.
abbrev pub IsFree : (ℕ → Bool) → LockFile → Type 0
IsFree alive file = (file ≡ absent) ⊎ ((pid : ℕ) × (pid_of file ≡ ok pid) × (alive pid ≡ false))

-- What acquire comes to on a file, if it is one of these.
abbrev pub EndsWith : (ℕ → Bool) → ℕ → String → LockFile → Acquisition → Type 0
EndsWith alive pid token file a =
    (IsFree alive file × (a ≡ acquired (written pid token)))
    ⊎ (((p : ℕ) × (pid_of file ≡ ok p) × (alive p ≡ true) × (a ≡ already_running file))
        ⊎ ((e : Failure) × (pid_of file ≡ raise e) × (a ≡ failed e file)))

judge_file-EndsWith :
    (alive : ℕ → Bool) (pid : ℕ) (token : String) (file : LockFile) (r : Result ℕ)
    → pid_of file ≡ r
    → EndsWith alive pid token file (judge_file alive file (acquired (written pid token)) r)
judge_file-EndsWith alive pid token file (ok p) h = elim (Bool-cases (alive p)) [
  | inl e ↦ inr (inl (p, h, e, rw e refl))
  | inr e ↦ inl (inr (p, h, e), rw e refl)
]
judge_file-EndsWith alive pid token file (raise e) h = inr (inr (e, h, refl))

-- Two turns of the loop are enough: acquire takes the lock, and then there was no file or the file's pid is
-- that of no living process; or it finds that the pid is of one that lives; or the reading of the pid
-- raises, as on a file that is no JSON object, and so does acquire. In the last two the file stays.
pub acquire-ends :
    (alive : ℕ → Bool) (pid fuel : ℕ) (token : String) (file : LockFile)
    → EndsWith alive pid token file (acquire alive pid token (suc (suc fuel)) file)
unfolding acquire
acquire-ends alive pid fuel token absent = inl (inl refl, refl)
acquire-ends alive pid fuel token unreadable =
    judge_file-EndsWith alive pid token unreadable (ok 0) refl
acquire-ends alive pid fuel token undecodable =
    judge_file-EndsWith alive pid token undecodable (ok 0) refl
acquire-ends alive pid fuel token no_object =
    judge_file-EndsWith alive pid token no_object (raise attribute_error) refl
acquire-ends alive pid fuel token (object p t) =
    judge_file-EndsWith alive pid token (object p t) (pid_number p) refl

-- No service has the lock, or one has, and the file names it and its living process.
abbrev pub IsOne : (ℕ → Bool) → World → Type 0
IsOne alive w =
    (w.holders ≡ [])
    ⊎ ((pid : ℕ) × (token : String) × (w.holders ≡ token ∷ [])
        × (w.file ≡ written pid token)
        × (alive pid ≡ true))

-- The process that acquires lives.
abbrev pub IsLive : (ℕ → Bool) → ServiceCall → Type 0
IsLive alive (acquiring pid token) = alive pid ≡ true
IsLive alive (releasing token) = Unit

release-IsOne :
    (alive : ℕ → Bool) (token t : String) (p : ℕ)
    → alive p ≡ true
    → IsOne alive (release token (record { file = written p t; holders = t ∷ [] }))
release-IsOne alive token t p lives = elim (Bool-cases (t == token)) [
  | inl e ↦ inl (rw e refl)
  | inr e ↦ inr (p, t, rw e refl, rw e refl, lives)
]

after_call-IsOne :
    (alive : ℕ → Bool) (c : ServiceCall) (w : World)
    → IsLive alive c
    → IsOne alive w
    → IsOne alive (after_call alive c w)
unfolding after_call acquire
after_call-IsOne alive (acquiring pid token) w live (inl none_held) =
    elim (acquire-ends alive pid 0 token w.file) [
      | inl (free, e) ↦ rw e (inr (pid, token, ap (λ ts. token ∷ ts) none_held, refl, live))
      | inr (inl (p, named, lives, e)) ↦ rw e (inl none_held)
      | inr (inr (f, named, e)) ↦ rw e (inl none_held)
    ]
after_call-IsOne alive (acquiring pid token) w live (inr (p, t, held, file, lives)) =
    inr (p, t, rw (file, lives) held, rw (file, lives) refl, lives)
after_call-IsOne alive (releasing token) w live (inl none_held) = inl (rw none_held refl)
after_call-IsOne alive (releasing token) w live (inr (p, t, held, file, lives)) =
    let here : w ≡ record { file = written p t; holders = t ∷ [] } =
      λ i. record { file = file i; holders = held i } in
    subst (λ v. IsOne alive (release token v)) (sym here) (release-IsOne alive token t p lives)

after_calls-IsOne :
    (alive : ℕ → Bool) (cs : List ServiceCall) (w : World)
    → All (IsLive alive) cs
    → IsOne alive w
    → IsOne alive (after_calls alive cs w)
unfolding after_calls
after_calls-IsOne alive [] w live h = h
after_calls-IsOne alive (c ∷ cs) w (live, rest) h =
    after_calls-IsOne alive cs (after_call alive c w) rest (after_call-IsOne alive c w live h)

-- While no service holds the lock, whatever the file is, and for services whose processes live: after any
-- sequence of whole calls of acquire and release one service at most holds it.
pub after_calls-length :
    (alive : ℕ → Bool) (cs : List ServiceCall) (file : LockFile)
    → All (IsLive alive) cs
    → length (after_calls alive cs (record { file = file; holders = [] })).holders ≤ 1
after_calls-length alive cs file live =
    elim (after_calls-IsOne alive cs (record { file = file; holders = [] }) live (inl refl)) [
      | inl e ↦ rw e (omega arith)
      | inr (pid, token, held, named, lives) ↦ rw held (omega arith)
    ]
